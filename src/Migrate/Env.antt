-- ===== src/Migrate/Env.antt =====
-- What the migrations use of the standard library's and other modules' parsers and formatters, and
-- the fields of `Migrator` (internal/configmigrate/migrator.go). None of these functions is under
-- the repository's sources, so they are parameters.
use null_private.Prelude.{ℕ, String, Bool, Option}
use null_private.Prelude.Int.{ℤ}

-- A parsed URL: what the code reads of it, and `String()` once `Host` is set.
pub record Url : Type 0 where
  pub scheme : String
  pub host : String
  pub with_host : String → String

pub record Env : Type 0 where
  -- `bcrypt.GenerateFromPassword` at the default cost
  pub bcrypt : String → Option String
  -- `url.Parse`
  pub parse_url : String → Option Url
  -- `netutil.SplitHost`
  pub split_host : String → Option String
  -- `netip.ParseAddr`, with `netip.AddrPortFrom(addr, port).String()` for the parsed address
  pub parse_addr : String → Option (ℕ → String)
  -- `timeutil.Duration.String`
  pub duration_string : ℤ → String
  -- `filepath.IsAbs`
  pub is_abs : String → Bool
  -- `filepath.Join(dir, "userfilters", "*")`
  pub user_filters_glob : String → String

pub record Migrator : Type 0 where
  pub working_dir : String
  pub data_dir : String
