-- ===== src/Tenant/Slugs.antt =====
-- `slugRegexp` of services/tenant-service/internal/application/tenant_service.go, as a scan of the text.
use Prim.Native.Nat.{ℕ}
use Prim.Native.Char.{code}
use Prim.Native.String.{String, [], ◌∷◌}
use mathlib.Core.Bool.{Bool, true, false, ◌&&◌, ◌||◌, not}
use ops_nexus.Prelude.{leb, if◌then◌else◌}

-- `[a-z0-9]`
abbrev is_slug_char : ℕ → Bool
is_slug_char c = leb 0x61 c && leb c 0x7a || leb 0x30 c && leb c 0x39

-- The rest of a slug; `wanted` says that a letter or a digit has to come.
unfoldable pub slug_rest : Bool → String → Bool
slug_rest wanted [] = not wanted
slug_rest wanted (c ∷ s) =
    let letter = slug_rest false s in
    let hyphen = slug_rest true s in
    if is_slug_char (code c)
    then letter
    else leb 0x2d (code c) && leb (code c) 0x2d && not wanted && hyphen

-- `slugRegexp`, the pattern `^[a-z0-9]+(?:-[a-z0-9]+)*$`
unfoldable pub is_slug : String → Bool
is_slug s = slug_rest true s
