-- ===== src/Common/Text.antt =====
-- Texts as lists of code points: upper case of ASCII letters, and `word in text`.
use Prim.Native.Char.{code}
use smart_traffic_management.Common.{
  Bool, List, String, [], false, if◌then◌else◌, leb, true, ℕ, ◌&&◌, ◌-◌, ◌==◌, ◌||◌, ◌∷◌,
}
use smart_traffic_management.Common.Equality.{nat_eq, string_eq}
use smart_traffic_management.Signal.Types.{lane_id_eq_inst}

abbrev pub upper : ℕ → ℕ
upper c = if leb b'a' c && leb c b'z' then c - 32 else c

abbrev pub codes : String → List ℕ
codes String.[] = []
codes (String.◌∷◌ c s) = code c ∷ codes s

abbrev pub begins_with : List ℕ → List ℕ → Bool
begins_with [] text = true
begins_with (c ∷ word) [] = false
begins_with (c ∷ word) (d ∷ text) = c == d && begins_with word text

-- `word in text`
abbrev pub occurs : List ℕ → List ℕ → Bool
occurs word [] = begins_with word []
occurs word (c ∷ text) = begins_with word (c ∷ text) || occurs word text
