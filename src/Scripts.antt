-- ===== src/Scripts.antt =====
-- `ScriptLoader` of src/commands/script-loader.ts: scripts and the files that they include. A
-- script is the list of its symbols: characters, matches of the regular expression for includes,
-- which hold the reference, and the tokens of files, which `resolveDependencies` puts in their
-- place. A file is known by its path, and the cache is the map of all files that were read.
pub mod Resolving
pub mod Interpolating
use bullmq.Shared.{
  ℕ, ◌===◌, if◌then◌else◌, Bool, true, false, List, [], ◌∷◌, ◌++◌, Option, none, some, String, has,
  keep, Dict, get, put, map, Outcome, returns, throws,
}

pub data Symbol : Type 0 where
  text : ℕ → Symbol
  includes_file token : String → Symbol

-- `ScriptMetadata` of a file; the other fields follow from its path.
pub record ScriptMetadata : Type 0 where
  pub content : List Symbol
  pub includes : List String

pub data LoaderError : Type 0 where
  circular_reference include_not_found already_included no_path_mapping read_failed out_of_fuel :
      String → LoaderError

-- The file system and the libraries for paths: the directory of a file, the paths that a reference
-- in a directory stands for (`resolvePath`, `path.resolve` and the glob), whether a path ends in
-- .lua, and the symbols of a file, of which there are none if it is not there (`ENOENT`), or the
-- code of another error.
pub record Files : Type 0 where
  pub dirname : String → String
  pub paths_of : String → String → Outcome LoaderError (List String)
  pub is_lua : String → Bool
  pub read : String → Outcome String (Option (List Symbol))

abbrev pub Cache : Type 0
Cache = Dict ScriptMetadata

abbrev pub empty_file : ScriptMetadata
empty_file = record { content = []; includes = [] }

abbrev pub or_empty_file : Option ScriptMetadata → ScriptMetadata
or_empty_file none = empty_file
or_empty_file (some m) = m

-- The file at a path that is in the cache.
unfoldable pub file_at : String → Cache → ScriptMetadata
unfolding get
file_at path cache = or_empty_file (get path cache)
