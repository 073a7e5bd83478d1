-- ===== src/Tests/Binary.antt =====
-- Precompiled chunks on concrete functions.
use luascript.Prelude.{
  ◌⊎◌, ℕ, ◌≡◌, refl, Bool, true, false, arith, append-nil, some, List, [], ◌∷◌, ◌++◌, ◌==◌,
  if◌then◌else◌, length,
}
use luascript.Prelude.Bytes.{Bytes, codes, bytes_eq}
use luascript.Prelude.Int.{ℤ, pos, negsuc, ◌-ℤ◌}
use luascript.Core.Opcodes.{get_opcode, getarg_a, getarg_b, getarg_c}
use luascript.Core.Opcodes.Modes.{opcode_of, opmodes}
use luascript.Core.Stream.{Zio}
use luascript.Core.Stream.Reading.{Holds, delivers_null}
use luascript.Core.Binary.{
  Image, knil, kboolean, knumber, kstring, ProtoInfo, Proto, proto, no_protos, more_protos, header,
}
use luascript.Core.Binary.Dump.{dump}
use luascript.Core.Binary.Undump.{ok, err, undump}
use luascript.Core.Symbexec.{checkcode, symbexec, passed, refused, no_reg}
use luascript.Core.Symbexec.Ends.{symbexec_safe}
use luascript.Core.Binary.Format.{FitsInfo, Fits, loaded}
use luascript.Core.Binary.RoundTrip.{undump-dump, undump-dump_stripped, undump_bad_header}
use luascript.Tests.{integers, next_block}

-- eight cells for a number: its size and its sign
abbrev cells : ℤ → Bytes
cells (pos n) = n ∷ 0 ∷ 0 ∷ 0 ∷ 0 ∷ 0 ∷ 0 ∷ 0 ∷ []
cells (negsuc n) = n ∷ 1 ∷ 0 ∷ 0 ∷ 0 ∷ 0 ∷ 0 ∷ 0 ∷ []

abbrev of_cells : Bytes → ℤ
of_cells (n ∷ s ∷ rest) = if s == 0 then pos n else negsuc n
of_cells _ = pos 0

length-cells : (z : ℤ) → length (cells z) ≡ 8
length-cells (pos n) = refl
length-cells (negsuc n) = refl

of_cells-cells : (z : ℤ) → of_cells (cells z) ≡ z
of_cells-cells (pos n) = refl
of_cells-cells (negsuc n) = refl

abbrev image : Image integers
image = record {
  to_bytes = cells;
  of_bytes = of_cells;
  length-to_bytes = length-cells;
  of_bytes-to_bytes = of_cells-cells;
}

-- a writer that takes every block
abbrev append_block : Bytes → Bytes → ℕ × Bytes
append_block w b = (0, w ++ b)

append_block-accepts : (w b : Bytes) → ((append_block w b).0 ≡ 0) × ((append_block w b).1 ≡ w ++ b)
append_block-accepts w b = (refl, refl)

abbrev all_written : Bytes → Bytes
all_written w = w

abbrev inner_info : ProtoInfo ℤ
inner_info = record {
  source = codes "@a";
  linedefined = 2;
  lastlinedefined = 4;
  nups = 1;
  numparams = 0;
  is_vararg = 2;
  maxstacksize = 3;
  code = 30 ∷ 8388638 ∷ [];
  k = knil ∷ kboolean true ∷ knumber (negsuc 4) ∷ kstring (some (codes "x")) ∷ [];
  lineinfo = 2 ∷ 4 ∷ [];
  locvars = record { varname = some (codes "n"); startpc = 0; endpc = 1 } ∷ [];
  upvalues = some (codes "t") ∷ [];
}

abbrev outer : Proto ℤ
outer =
    proto (record inner_info { k = []; nups = 0; upvalues = [] })
      (more_protos (proto inner_info no_protos) no_protos)

-- a stream with one block
abbrev stream : Bytes → Zio (List Bytes)
stream b = record { n = length b; p = b; data_ = [] }

stream-Holds : (b rest : Bytes) → Holds next_block (stream (b ++ rest)) (b ++ rest)
stream-Holds b rest = record {
  tail = [];
  in_block = refl;
  delivered = delivers_null [] [] refl;
  joined = append-nil (b ++ rest);
}

abbrev written : Bool → Bytes
written strip = (dump image append_block outer [] strip).sink

inner_info-Fits : FitsInfo inner_info
inner_info-Fits = record {
  source = omega arith;
  lines = omega arith;
  chars = omega arith;
  code = omega arith;
  k = (omega arith, (tt, (tt, (tt, (omega arith, tt)))));
  lineinfo = omega arith;
  locvars = omega arith;
  upvalues = omega arith;
}

outer_info-Fits : FitsInfo (record inner_info { k = []; nups = 0; upvalues = [] })
outer_info-Fits = record {
  source = omega arith;
  lines = omega arith;
  chars = omega arith;
  code = omega arith;
  k = (omega arith, tt);
  lineinfo = omega arith;
  locvars = omega arith;
  upvalues = omega arith;
}

-- the checker accepts both functions, with debug information and without
code_passes :
    (strip : Bool)
    → (checkcode (loaded strip (codes "=?") outer) ≡ true)
      × (checkcode
            (loaded strip (if strip then codes "=?" else codes "@a") (proto inner_info no_protos))
          ≡ true)
unfolding checkcode loaded opcode_of get_opcode getarg_a opmodes getarg_c ◌-ℤ◌ getarg_b
code_passes true = (refl, refl)
code_passes false = (refl, refl)

outer-Fits : (strip : Bool) → Fits checkcode strip (codes "=?") 2 outer
unfolding Fits
outer-Fits strip =
    let (outer_passes, inner_passes) = code_passes strip in
    (
      outer_info-Fits,
      omega arith,
      outer_passes,
      ((inner_info-Fits, omega arith, inner_passes, tt), tt),
    )

undump-dump_example :
    (z' : Zio (List Bytes)) × (undump next_block image checkcode 2
        (stream (written false ++ codes "end"))
      ≡ (ok outer, z'))
    × Holds next_block z' (codes "end")
undump-dump_example =
    undump-dump image checkcode append_block all_written append_block-accepts next_block outer [] 2
      (stream (written false ++ codes "end")) (codes "end") refl (outer-Fits false)
      (stream-Holds (written false) (codes "end"))

undump-dump_stripped_example :
    (z' : Zio (List Bytes)) × (undump next_block image checkcode 2 (stream (written true ++ []))
      ≡ (ok (loaded true (codes "=?") outer), z'))
    × Holds next_block z' []
undump-dump_stripped_example =
    undump-dump_stripped image checkcode append_block all_written append_block-accepts next_block
      outer [] 2 (stream (written true ++ [])) [] refl (outer-Fits true)
      (stream-Holds (written true) [])

other_header : bytes_eq header (codes "#!/bin/lua\n\n") ≡ false
unfolding bytes_eq header
other_header = refl

undump_bad_header_example :
    (z' : Zio (List Bytes)) × (undump next_block image checkcode 2
        (stream (codes "#!/bin/lua\n\n" ++ codes "x"))
      ≡ (err (codes "bad header"), z'))
undump_bad_header_example =
    undump_bad_header image checkcode next_block (stream (codes "#!/bin/lua\n\n" ++ codes "x"))
      (codes "#!/bin/lua\n\n") (codes "x") 2 refl other_header
      (stream-Holds (codes "#!/bin/lua\n\n") (codes "x"))

symbexec_safe_example :
    (symbexec inner_info no_protos 1 0 ≡ refused)
    ⊎ ((i : ℕ) × (symbexec inner_info no_protos 1 0 ≡ passed i))
symbexec_safe_example = symbexec_safe inner_info no_protos 1 0 (omega arith)

-- code that does not end with a RETURN is refused
no_return : symbexec (record inner_info { code = 30 ∷ 0 ∷ [] }) no_protos 2 no_reg ≡ refused
unfolding symbexec opcode_of get_opcode
no_return = refl
