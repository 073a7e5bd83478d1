-- ===== src/Tests/Strings.antt =====
-- The table of strings on concrete texts.
use mathlib.Core.List.{Permᴰ, flatten}
use luascript.Prelude.{
  ℕ, ◌%◌, ◌^◌, zero, suc, ◌≡◌, ◌↔◌, refl, true, false, some, [], ◌∷◌, arith, length,
}
use luascript.Prelude.Bytes.{codes}
use luascript.Core.Strings.{
  Marked, TString, Global, hash_of, hash_loop, lmod, luas_resize, luas_newlstr, opened,
}
use luascript.Core.Strings.Placed.{objects, Placed, WellFormed}
use luascript.Core.Strings.Resize.{luas_resize-WellFormed, opened-WellFormed}
use luascript.Core.Strings.Intern.{HasWhite, Interned, luas_newlstr-Interns}
use luascript.Core.Strings.Intern.Same.{luas_newlstr_same}

abbrev first_white : Marked
first_white = record { white0 = true; white1 = false; others = 0 }

-- an object that the collector has found dead
abbrev dead_string : TString
dead_string = record {
  addr = 7;
  text = codes "end";
  hash = hash_of (codes "end");
  marked = record { white0 = false; white1 = true; others = 0 };
}

abbrev one_string : Global
one_string = record {
  strt = record { hash = (dead_string ∷ []) ∷ []; nuse = 1 };
  currentwhite = first_white;
  sweepstring = false;
  next = 8;
}

one_string-Placed : Placed one_string.strt.hash
unfolding hash_of hash_loop
one_string-Placed zero = (refl, tt)
one_string-Placed (suc i) = tt

one_string-WellFormed : WellFormed one_string
unfolding flatten
one_string-WellFormed = record {
  some_chain = omega arith;
  placed = one_string-Placed;
  sound = ((refl, omega arith), tt);
  once = (tt, tt);
  counted = refl;
}

luas_resize-WellFormed_example :
    WellFormed (luas_resize one_string (2 ^ 2))
    × Permᴰ (objects (luas_resize one_string (2 ^ 2))) (objects one_string)
    × (length (luas_resize one_string (2 ^ 2)).strt.hash ≡ 2 ^ 2)
    × ((h : ℕ) → lmod h (length (luas_resize one_string (2 ^ 2)).strt.hash) ≡ h % 2 ^ 2)
luas_resize-WellFormed_example = luas_resize-WellFormed one_string 2 one_string-WellFormed refl

luas_newlstr-Interns_example : Interned one_string (codes "end")
luas_newlstr-Interns_example =
    luas_newlstr-Interns one_string (codes "end") one_string-WellFormed refl (omega arith)

opened_white : HasWhite (opened first_white 1)
unfolding opened
opened_white = refl

luas_newlstr_same_example :
    (a : TString) × (g₁ : Global) × (b : TString) × (g₂ : Global) × (luas_newlstr
        (opened first_white 1)
        (codes "x")
      ≡ some (a, g₁))
    × (luas_newlstr g₁ (codes "y") ≡ some (b, g₂))
    × ((a.addr ≡ b.addr) ↔ (codes "x" ≡ codes "y"))
luas_newlstr_same_example =
    luas_newlstr_same (opened first_white 1) (codes "x") (codes "y")
      (opened-WellFormed first_white 1) opened_white (omega arith) (omega arith)

-- of a text of 32 bytes every second byte counts
first_byte :
    hash_of (codes "0123456789012345678901234567890X")
    ≡ hash_of (codes "1123456789012345678901234567890X")
unfolding hash_of hash_loop
first_byte = refl
