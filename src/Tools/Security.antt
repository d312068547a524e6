-- ===== src/Tools/Security.antt =====
-- pkg/tools/security: the automatic allowance, the path and command validators and the manager.
-- Functions of path/filepath, os, regexp and two of strings are a `Library` record; texts are
-- compared by their bytes, as HasPrefix and Contains do.
pub mod AutoAllow
pub mod Restriction
pub mod Paths
pub mod Acceptance
pub mod Manager
pub mod Writes
mod Tests
use syntor.Common.{String, Bool, List, Option}

-- filepath.Match (an error is no match), filepath.Base, filepath.Abs, filepath.Clean,
-- filepath.Join, os.UserHomeDir, strings.TrimSpace, strings.Fields and a regular expression's
-- MatchString
pub record Library : Type 0 where
  pub glob_match : String → String → Bool
  pub base_name : String → String
  pub abs : String → Option String
  pub clean : String → String
  pub join : String → String → String
  pub user_home_dir : Option String
  pub trim_space : String → String
  pub fields : String → List String
  pub match_string : String → String → Bool
