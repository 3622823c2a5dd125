-- ===== src/Lib.antt =====
-- cappu, a package manager and toolchain for Java, written in Go (togo/).
--
-- Packages: the package domain (togo/internal/packages).
--   Packages.Version       segmentsOf, compareQualifier, compareSegment, CompareVersions
--                          (version_range.go); texts are lists of code points
--   Packages.Range         parseRestriction, ParseVersionSpec, Satisfies, SelectVersion
--                          (version_range.go), MatchesVersionSpec, MatchingVersions (versions.go)
--   Packages.Domain        Coordinates, PackageMetadata and the interface PackageSource (types.go)
--   Packages.Resolver      ResolveTransitive and what it calls (resolver.go); its maps and slices are
--                          the fields of State, a return with an error is Run.failed
--   Packages.Memory        InMemoryPackageSource (resolver.go)
--
-- Compiler: the scanner, class files and the line map (togo/internal/compiler).
--   Compiler.Kinds         SyntaxKind and TokenFlags (kinds.go), without the kinds of nodes
--   Compiler.Keywords      the keywords, TokenToString, IsReservedWord and the like (keywords.go,
--                          utilities.go)
--   Compiler.Scanner       Scanner, Scan and scanAll (scanner.go), with Numbers, Literals and Tokens for
--                          number, string and other tokens; the operators are a table in the order in
--                          which the scanner tries them. A call of the error callback is recorded as a
--                          report, an index out of range, which panics, is `none`. Loops take fuel: the
--                          characters left in front of the end, of which each round reads one (Moves,
--                          NumberMoves, LiteralMoves and Progress). Cover says which part of the text a
--                          token is
--   Compiler.Trivia        SkipTrivia (utilities.go), which Agrees compares with the scanner
--   Compiler.Escape        the strings that the disassembler and the decompiler print (disasm.go,
--                          decompile.go), which ReadBack reads with the scanner
--   Compiler.ByteBuffer    byteBuffer (bytebuffer.go); a Go int is its bit pattern, and indexing out of
--                          range, which panics, is `none`
--   Compiler.ClassFile     reading (classfile.go): Cursor (cursor), Constants (readConstantPool and the
--                          accessors), Tables (readAttributeTable, readMemberTable, ReadClassFile),
--                          Attributes (ReadCode, ReadBootstrapMethods and the other attributes).
--                          Parses says what a reader makes of the bytes of a value and of a part of
--                          them; Entries, Pool, Layout and Code are the format of JVMS 4, written
--                          down independently of the reader
--   Compiler.ConstantPool  constantPool (constantpool.go); a method is a function from the pool to an
--                          Outcome. Meaning and Keys say what an entry stands for, Invariant that
--                          a pool agrees with a list of entries, Names, Members and ReadBack what a
--                          reader then finds
--   Compiler.LineMap       ComputeLineStarts and lineIndexOf (linemap.go); the binary search takes fuel,
--                          and the number of lines is enough
--
-- Jdwp: the Java Debug Wire Protocol (togo/internal/jdwp).
--   Jdwp.Protocol          EncodeCommandPacket, DecodePacket and TryReadPacket (protocol.go)
--
-- Semver                   IsReleaseType and Bump (togo/internal/semver/semver.go)
--
-- Format: the layout engine and the import order of the formatter (togo/internal/format).
--   Format.Doc             Doc, sumWidth, flatAll and splitByBreaks (doc.go); the widths and texts that
--                          the code caches are computed anew
--   Format.Doc.Layout      computeBreaks, computeLevel, breakAndSplit (doc.go); where the code writes
--                          its decisions into the levels, the model returns a document of them (Laid)
--   Format.Doc.Output      printDoc, writeDoc, writeFlat, hasReflow, trimTrailingSpace (doc.go); the
--                          rewriter of comments is a parameter
--   Format.Doc.Pieces      the leaves that splitting and laying out keep, for Printing, which
--                          describes the output independently, Tidy and Breaks
--   Format.Imports         OrderImports and what it calls (importorder.go); the stable sort of the library
--                          is an insertion sort, and an index of a block out of range, which panics,
--                          would drop the import
--
-- `int` results in -1, 0, 1 are values of `Ordering`; a Go pair (value, ok) is an `Option`, and a pair
-- (value, error) a `Result`. Loops over slices are recursions on lists. The loop of ResolveTransitive
-- over levels takes fuel; one more than the number of packages that the sources depend on is enough.
--
-- Not modelled of these files: prefetchLevel (togo/internal/packages/resolver.go), which calls the
-- sources ahead of the loop to warm their caches and leaves the variables of the loop alone, since a
-- source here is a function that answers every call alike; the search in an in-memory source;
-- SiblingsBeside and SiblingClass (togo/internal/compiler/classfile.go), which look for other files;
-- and the columns of linemap.go. The rest of the repository is left out: the command line, HTTP, files
-- and processes, the servers, the formatter's walk over the syntax tree, and the compiler from the parser
-- to the emitters.
pub mod Base
pub mod Compiler
pub mod Format
pub mod Jdwp
pub mod Packages
pub mod Semver
