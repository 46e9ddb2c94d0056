-- ===== src/Common/DirScanner.antt =====
-- `DirScanner` of src/common/dir_scanner.cc. What the directory iterator gives is a parameter: the
-- paths of the entries, or the exception that it throws.
use serach_engine.Base.{Text, bytes, Outcome, ok, ◌>>=◌, List, ◌++◌}
use serach_engine.Common.Configuration.{Settings, setting}

module _ (entries : Text → Outcome (List Text)) where
  -- `DirScanner::Traverse`, on `_file_path_list`.
  unfoldable pub traverse : Text → List Text → Outcome (List Text)
  traverse dir_path list = do found ← entries dir_path; ok (list ++ found)

  -- `DirScanner::operator()`.
  unfoldable pub scan : Settings → List Text → Outcome (List Text)
  unfolding traverse
  scan config list = traverse (setting config (bytes "dir_people")) list
