-- ===== src/Paths/Access.antt =====
-- src/access_control.rs: the allowlist of a site.
use konnector.Prelude.{Bool, true, Text, any}
use konnector.Configs.Types.{AccessPolicy, all_paths, only_prefixes}
use konnector.Paths.Prefix.{opens}

unfoldable pub is_allowed : Text → AccessPolicy → Bool
unfolding opens
is_allowed path all_paths = true
is_allowed path (only_prefixes prefixes) = any (opens path) prefixes
