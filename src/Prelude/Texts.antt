-- ===== src/Prelude/Texts.antt =====
-- Texts that several components read.
use sigenergy_optimizer.Prelude.Tests.{◌==◌, if◌then◌else◌}
use Prim.Native.Char.{code}
use Prim.Native.String.{String}
use mathlib.Core.Bool.{◌&&◌}
use text.Mathlib.Text.{◌==◌ as str_eq}

-- `value[:-1] + "+00:00" if value.endswith("Z") else value`
unfoldable pub with_offset : String → String
with_offset String.[] = String.[]
with_offset (String.◌∷◌ c s) =
    let rest = with_offset s in
    if code c == b'Z' && str_eq s "" then "+00:00" else String.◌∷◌ c rest
