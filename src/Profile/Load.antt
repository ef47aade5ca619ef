-- ===== src/Profile/Load.antt =====
-- `CProfile::LoadProfile` of utils/Profile.cpp, and the names of common/config.h. The file is outside:
-- one call stands for fopen, fseek, ftell and fread on the path. Its bytes are taken up to the first
-- zero byte, as a C string. `new` does not return null, so ERROR_NOT_ENOUGH_MEMORY never occurs.
pub mod Printed
use tag_etl.Codes.{
  error_invalid_parameter, error_cannot_open_profile, error_file_invalid, error_read_fault,
}
use tag_etl.Prelude.{ℕ, List, [], ◌∷◌, Option, some, ◌==◌, if◌then◌else◌}
use tag_etl.Profile.Build.{Section, build_profile_queue}
use tag_etl.System.{
  Env, Act, File, absent, unreadable, content, read_file, ◌>>=◌, pure, lift, call_file,
}
use tag_etl.Text.{Bytes, codes}

abbrev pub sys_config_pos : Bytes
sys_config_pos = codes "./config/sysconf.ini"

abbrev pub db_config_pos : Bytes
db_config_pos = codes "./config/sysconf.ini"

-- The text up to the first zero byte.
unfoldable pub c_string : Bytes → Bytes
c_string [] = []
c_string (c ∷ cs) = let rest = c_string cs in if c == 0 then [] else c ∷ rest

unfoldable pub profile_of : List Section → File → Option (ℕ × List Section)
unfolding c_string build_profile_queue
profile_of old absent = some (error_cannot_open_profile, old)
profile_of old unreadable = some (error_read_fault, old)
profile_of old (content []) = some (error_file_invalid, old)
profile_of old (content (c ∷ cs)) = build_profile_queue old (c_string (c ∷ cs))

-- The code, and the object's sections.
unfoldable pub load_profile : Env → List Section → Bytes → Act (ℕ × List Section)
unfolding profile_of
load_profile env old [] = pure (error_invalid_parameter, old)
load_profile env old (c ∷ cs) = do
  file ← call_file env (read_file (c ∷ cs))
  lift (profile_of old file)
