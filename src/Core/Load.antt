-- ===== src/Core/Load.antt =====
-- core/src/config.cpp: `ConfigLoader::load` and `ConfigReloader::reload`.
use dbmesh.Prelude.{Bool, Option, none, some, Bytes, if◌then◌else◌}
use dbmesh.Core.Types.{Result, ok, err}
use dbmesh.Core.Config.{Config}
use dbmesh.Core.Yaml.{Yaml, Parsed, Thrown, yaml_exception, std_exception}
use dbmesh.Core.Parse.{parse_config}
use dbmesh.Core.Validate.{Invalid, validate}

-- The messages of `load`.
pub data LoadError : Type 0 where
  not_found yaml_parse_error config_error : LoadError
  invalid : Invalid → LoadError

-- The two `catch` clauses.
abbrev pub caught : Thrown → LoadError
caught yaml_exception = yaml_parse_error
caught std_exception = config_error

unfoldable pub validated : Config → Option Invalid → Result Config LoadError
validated cfg none = ok cfg
validated cfg (some e) = err (invalid e)

unfoldable pub loaded : Parsed Config → Result Config LoadError
unfolding validated
loaded (err e) = err (caught e)
loaded (ok cfg) = validated cfg (validate cfg)

-- The file system and `YAML::LoadFile`, which may throw.
module _ (yaml : Yaml) (exists : Bytes → Parsed Bool) (load_file : Bytes → Parsed yaml.Node) where
  unfoldable pub parse_file : Bytes → Parsed Config
  parse_file path = elim (load_file path) [ err e ↦ err e | ok root ↦ parse_config yaml root ]

  unfoldable pub load : Bytes → Result Config LoadError
  unfolding loaded parse_file
  load path = elim (exists path) [
    | err e ↦ err (caught e)
    | ok there ↦ if there then loaded (parse_file path) else err not_found
  ]

  -- What the callback of a reload is given, if it is called: the configuration, or the old one stays.
  unfoldable pub reload : Bytes → Option Config
  unfolding load
  reload path = elim (load path) [ ok cfg ↦ some cfg | err e ↦ none ]
