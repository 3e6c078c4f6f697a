-- ===== src/Base/Texts.antt =====
-- Go's strings.HasSuffix, TrimPrefix and TrimSuffix; HasPrefix is the library's `starts_with`.
use Prim.Native.Nat.{◌-◌}
use Prim.Native.String.{String, len, slice}
use mathlib.Core.Bool.{Bool, ◌&&◌}
use text.Mathlib.Text.{starts_with, ◌==◌}
use modelrelay.Base.Tests.{leb, if◌then◌else◌}

abbrev pub ends_with : String → String → Bool
ends_with s t = leb (len t) (len s) && slice s (len s - len t) (len s) == t

abbrev pub trim_prefix : String → String → String
trim_prefix s t = if starts_with s t then slice s (len t) (len s) else s

abbrev pub trim_suffix : String → String → String
trim_suffix s t = if ends_with s t then slice s 0 (len s - len t) else s
