-- ===== src/Comm/Paths.antt =====
-- comm/util.hpp, PathUtil: the names of the temporary files of one submission.
pub mod Distinct
use distributed_oj.Base.{◌++◌, Text, text}

abbrev pub temp_path : Text
temp_path = text "./temp/"

-- `AddSuffix`
unfoldable pub add_suffix : Text → Text → Text
add_suffix file_name suffix = (temp_path ++ file_name) ++ suffix

abbrev pub src : Text → Text
src file_name = add_suffix file_name (text ".cpp")

abbrev pub exe : Text → Text
exe file_name = add_suffix file_name (text ".exe")

abbrev pub compiler_error : Text → Text
compiler_error file_name = add_suffix file_name (text ".compile_err")

abbrev pub stderr : Text → Text
stderr file_name = add_suffix file_name (text ".stderr")

abbrev pub stdin : Text → Text
stdin file_name = add_suffix file_name (text ".stdin")

abbrev pub stdout : Text → Text
stdout file_name = add_suffix file_name (text ".stdout")
