-- ===== src/Tests/Buffer.antt =====
-- A buffer with an array of four bytes.
use luascript.Prelude.{◌≤◌, ◌<◌, ◌≡◌, refl, List, [], ◌∷◌, arith, length}
use luascript.Prelude.Bytes.{codes}
use luascript.Core.Buffer.{
  Addition, add_char, add_lstring, add_value, limit, lual_buffinit, lual_pushresult, added, levels,
  lual_addlstring, lual_addvalue, lual_addchar, lual_prepbuffer, adjuststack, emptybuffer, joined,
}
use luascript.Core.Buffer.Content.{texts, lual_pushresult-added, added_bounds}

abbrev additions : List Addition
additions =
    add_lstring (codes "while ")
    ∷ add_value (codes "true do")
    ∷ add_char 32
    ∷ add_value (codes "end")
    ∷ []

lual_pushresult-added_example :
    ((lual_pushresult (added 4 additions lual_buffinit)).stack ≡ texts additions ∷ [])
    × ((lual_pushresult (added 4 additions lual_buffinit)).lvl ≡ 1)
lual_pushresult-added_example = lual_pushresult-added 4 additions (omega arith)

added_bounds_example :
    (length (added 4 additions lual_buffinit).buffer ≤ 4)
    × (length (added 4 additions lual_buffinit).stack < limit)
added_bounds_example = added_bounds 4 additions (omega arith)

-- the longer string below is not joined with the shorter one above
two_pieces :
    (added 4 (add_value (codes "true do") ∷ add_lstring (codes "while ") ∷ []) lual_buffinit).stack
    ≡ codes "whil" ∷ codes "true do" ∷ []
unfolding added lual_addlstring lual_addvalue lual_addchar lual_prepbuffer adjuststack emptybuffer
    levels joined
two_pieces = refl

whole : texts additions ≡ codes "while true do end"
unfolding texts
whole = refl
