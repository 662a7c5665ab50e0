-- ===== src/Tests/Escape.antt =====
-- The theorems on ghetto_xml_escape of main.cc at short texts.
use post2usenet.Common.{ℕ, ◌≢◌, [], ◌∷◌, ◌++◌, ◌≡◌, refl, arith, Bytes, codes, ◌==◌, if◌then◌else◌}
use post2usenet.Boost.{Replacing}
use post2usenet.Main.Nzb.{ghetto_xml_escape}
use post2usenet.Main.Nzb.Escape.{escape_bytes, ghetto_xml_escape-escape_bytes, ampersand_kept}

replace_byte : Bytes → ℕ → Bytes → Bytes
replace_byte [] c format = []
replace_byte (d ∷ s) c format =
    let more = replace_byte s c format in if d == c then format ++ more else d ∷ more

-- A search text of one byte, which is the only kind that is asked for.
replace_by : Bytes → Bytes → Bytes → Bytes
unfolding replace_byte
replace_by s (c ∷ []) format = replace_byte s c format
replace_by s search format = s

replace_by-nil : (c : ℕ) (format : Bytes) → replace_by [] (c ∷ []) format ≡ []
unfolding replace_by
replace_by-nil c format = refl

replace_by-at :
    (c : ℕ) (s format : Bytes)
    → replace_by (c ∷ s) (c ∷ []) format ≡ format ++ replace_by s (c ∷ []) format
unfolding replace_by replace_byte
replace_by-at c s format = ground arith

replace_by-ne :
    (c d : ℕ) (s format : Bytes)
    → d ≢ c
    → replace_by (d ∷ s) (c ∷ []) format ≡ d ∷ replace_by s (c ∷ []) format
unfolding replace_by replace_byte
replace_by-ne c d s format other = ground arith

pub boost_replacing : Replacing
boost_replacing = record {
  replace_all = replace_by;
  replace_nil = replace_by-nil;
  replace_at = replace_by-at;
  replace_ne = replace_by-ne;
}

abbrev text : Bytes
text = codes "\"a\" & 'b' < c"

ghetto_xml_escape-escape_bytes_example : ghetto_xml_escape boost_replacing text ≡ escape_bytes text
ghetto_xml_escape-escape_bytes_example = ghetto_xml_escape-escape_bytes boost_replacing text

ampersand_kept_example :
    (text ++ codes "<" ++ codes "d" ≢ text ++ codes "&lt;" ++ codes "d")
    × (ghetto_xml_escape boost_replacing (text ++ codes "<" ++ codes "d")
        ≡ ghetto_xml_escape boost_replacing (text ++ codes "&lt;" ++ codes "d"))
ampersand_kept_example = ampersand_kept boost_replacing text (codes "d")
