-- ===== src/Lib.antt =====
-- A model of tyr, a compiler of struct declarations to LLVM code. A .tyr file is parsed into structs
-- (lib/compiler/Parser, lib/compiler/CodeGen/Module.cpp, lib/compiler/IR), and passes make of the
-- structs the functions that create, read, change, serialize and free them
-- (lib/compiler/CodeGen/LLVMIRGen) and a C header that declares these
-- (lib/compiler/CodeGen/BindingCodeGen). What the passes emit is modelled by what it does when it
-- runs, on a memory of blocks.
--
-- Ir: `Field` and `Struct` of lib/compiler/IR/IR.hpp. A `Field *` is the number under which its
--   struct made the field. Ir/Build has the operations of IR.cpp (`addField` is `add_field`, and so
--   on); Ir/Links, Ir/Final, Ir/Apart and Ir/Pairs what they keep true of a struct.
-- Module: the table of structs, the builtins and `parseType` of lib/compiler/CodeGen/Module.cpp;
--   Module/Types and Module/Table are about these.
-- Parser: `parseFile`, `parseLine` and `addField` of lib/compiler/Parser/Parser.cpp on lines given as
--   lists of character codes. A read behind the tokens or through a null pointer is the outcome
--   `crash`. Parser/Structs says which structs a file makes, Parser/Lines what a line means,
--   and Parser/Fields what a line with a field adds.
-- Memory: the memory under the emitted code, and each instruction that `IRBuilder` emits on it.
--   Undefined behaviour is `fault`. malloc, realloc and free are builtins whose names a user may
--   override (doc/OverridingBuiltins.md); `Allocator` is the parameter that stands for them.
--   Memory/Laws and Memory/Realloc have what each instruction does.
-- Layout: `llvm::DataLayout`, a parameter. It has two byte orders, as code is emitted before the output
--   passes set the target's layout: the one that `isLittleEndian` answers while code is emitted, and
--   the machine's, in which numbers are loaded and stored. Sizes are taken to be those of the target.
-- Gen: what lib/compiler/CodeGen/LLVMIRGen/LLVMIRGenPass.cpp emits. Gen/Access has `getGetter`,
--   `getItemGetter` and `getItemSetter`, Gen/Update `getSetter`, Gen/Object `getConstructor` and
--   `getDestructor`, Gen/Serial the serializers and deserializers; the modules below each prove
--   their properties. Gen/Sizes is about `getFieldAllocSize`.
-- Header: the functions that LLVMIRGenPass.cpp emits for a struct, by name, and those that
--   lib/compiler/CodeGen/BindingCodeGen/CCodegenPass.cpp declares; Header/Declared compares them. Header/Text and
--   Header/File have the text of the header, Header/Declarations, Header/Parameters and Header/Printed
--   the declarations in it.
-- Passes: `Module::visit` and `PassManager::runOnModule` of lib/compiler/CodeGen, over any passes;
--   Passes/Answers says what they call and answer.
-- Runtime: the C helpers of lib/compiler/Runtime, which take the generated functions as arguments.
--   Runtime/Base64 has `tyr_serialize_to_base64` and `tyr_deserialize_from_base64`, loop by loop;
--   below it, Alphabet has the encoding of RFC 4648, Encode, Loop and Text are about the encoder, Decode,
--   Bytes and Decoded about the decoder, Past, Generated and Rebuilt about both with generated code.
--   Runtime/Stdio is <stdio.h> over a disk of files, Runtime/FileHelper the helpers of FileHelper.c, whose
--   `free` is libc's and not the builtin.
-- Llvm: what the files below call of LLVM and of the file system, as one record of functions that is a
--   parameter, over modules, target machines and functions of any kind. Module/Link has
--   `linkRuntimeModules` and `finalizeBuiltins` of lib/compiler/CodeGen/Module.cpp over it, Output the passes
--   of lib/compiler/CodeGen/ObjectCodegenPass and LLVMCodegenPass and the attribute pass of
--   lib/compiler/llvm/Passes/UnifyFnAttrs.cpp, Frontend `main` of lib/tools/tyrc/Frontend.cpp; Output/Written and
--   Frontend/Compiled say what they have done when they succeed. There the pass that emits LLVM code is
--   a parameter. Bindings has the passes of CCodegenPass.cpp and RustCodegenPass.cpp, with the files
--   that they write.
-- Prelude: tests, lists, slices, orders of a list, little-endian bytes, and bits of words.
-- Tests: concrete structs and memory, and an example of each result.
--
-- A struct in memory is a block of cells, one to a field, as `CreateStructGEP` addresses it; arrays
-- and buffers are blocks of bytes. Sizes and counts wrap at `2 ^ 64` and offsets at `2 ^ 32`, as the
-- code computes them. The loop of `swapArrayBytes` has fuel `2 ^ 64`: its counter has 64 bits, so
-- that many rounds come back to its start. Everything else recurses on a list.
--
-- The order in which an llvm::StringMap hands out structs and `StringRef::split` are parameters, as is
-- `std::sort`. A serializer of a field is looked up by name, as in the code; functions of other structs
-- are taken to have other names. The name of a struct's LLVM type, of which the pass makes the accessors'
-- names, is an argument of what is emitted. `llvm.bswap` stands for numbers of an even number of bytes.
--
-- Not modelled: text of messages, the execution engine, parsing of the command line, alignment,
-- and padding within a struct. Nested structs are in the definitions, with the functions of the
-- other struct as parameters, but the results on serialization are about numbers and arrays.
pub mod Prelude
pub mod Ir
pub mod Memory
pub mod Layout
pub mod Gen
pub mod Module
pub mod Parser
pub mod Header
pub mod Passes
pub mod Llvm
pub mod Output
pub mod Bindings
pub mod Frontend
pub mod Runtime
pub mod Tests
