-- ===== src/Core/Symbexec/Safe.antt =====
-- Each part of a round of `symbexec` reads only inside the arrays of the function.
use luascript.Prelude.{
  ℕ, zero, suc, ◌+◌, ◌-◌, ◌/◌, ◌%◌, ◌≤◌, ◌<◌, ◌≡◌, refl, inl, inr, Bool, true, false, not, ◌&&◌,
  Bool-cases, List, arith, length, ltb, leb, ◌==◌,
}
use luascript.Prelude.Int.{ℤ, pos, negsuc, pos_part, ◌+ℤ◌, ◌-ℤ◌, ltb_ℤ}
use luascript.Core.Opcodes.{getarg_b, getarg_c, getarg_bx, getarg_sbx}
use luascript.Core.Opcodes.Modes.{
  OpCode, op_loadbool, op_loadnil, op_getupval, op_setupval, op_getglobal, op_setglobal, op_self,
  op_concat, op_tforloop, op_forloop, op_forprep, op_jmp, op_call, op_tailcall, op_return,
  op_setlist, op_closure, op_vararg, opcode_of, OpMode, iabc, iabx, iasbx, OpArgMask, arg_n, arg_u,
  arg_r, arg_k, opmodes,
}
use luascript.Core.Binary.{ProtoInfo, Protos}
use luascript.Core.Symbexec.{
  Checked, passed, ◌>>=◌, ◌>>◌, check, when, read_at, is_some_op, is_return, takes_open, is_pseudo,
  is_long_setlist, checkopenop, Operands, Position, check_arg_mode, count_setlists, check_jump,
  is_k, is_r, dest_of, operands, check_pseudo, changed, check_open, check_skip, jump, check_results,
  skip_count, effect, check_test, nups_of, is_string,
}
use luascript.Core.Symbexec.Ensures.{
  Ensures, Anything, Ensures-bind, Ensures-check, Ensures-then, Ensures-read, check-Ensures,
}

module _ {Num : Type 0} (f : ProtoInfo Num) (fs : Protos Num) where
  when-Ensures :
      (b : Bool) (m : Checked (Unit {0})) → Ensures Anything m → Ensures Anything (when f fs b m)
  when-Ensures true m h = h
  when-Ensures false m h = tt

  arg_mode-Ensures : (r : ℕ) (mode : OpArgMask) → Ensures Anything (check_arg_mode f fs r mode)
  unfolding check_arg_mode
  arg_mode-Ensures r arg_n = check-Ensures _
  arg_mode-Ensures r arg_u = tt
  arg_mode-Ensures r arg_r = check-Ensures _
  arg_mode-Ensures r arg_k = check-Ensures _

  count_setlists-Ensures :
      (k j : ℕ) → k ≤ length f.code → Ensures Anything (count_setlists f fs k j)
  unfolding count_setlists
  count_setlists-Ensures zero j h = tt
  count_setlists-Ensures (suc k) j h = Ensures-read Anything f.code k _ (omega arith) λ d.
      elim (Bool-cases (is_long_setlist d)) [
        | inl long ↦ rw long (count_setlists-Ensures k (j + 1) (omega arith))
        | inr other ↦ rw other tt
      ]

  check_jump-Ensures : (dest : ℤ) → Ensures Anything (check_jump f fs dest)
  unfolding check_jump
  check_jump-Ensures (negsuc n) = tt
  check_jump-Ensures (pos dest) = Ensures-check Anything (ltb dest (length f.code)) _ λ inside.
      Ensures-bind Anything Anything (count_setlists f fs dest 0) _
        (count_setlists-Ensures dest 0 (ground arith)) (λ j h. check-Ensures _)

  check_pseudo-Ensures :
      (k p : ℕ) → p + k ≤ length f.code → Ensures Anything (check_pseudo f fs k p)
  unfolding check_pseudo
  check_pseudo-Ensures zero p h = tt
  check_pseudo-Ensures (suc k) p h = Ensures-read Anything f.code p _ (omega arith) λ i.
      Ensures-check Anything (is_some_op is_pseudo (opcode_of i)) _
        λ pseudo. check_pseudo-Ensures k (p + 1) (omega arith)

  -- what the argument b is, by the mode
  abbrev pub Argument : ℕ → OpCode → OpMode → Operands → Type 0
  Argument i op iabc x = x.b ≡ pos (getarg_b i)
  Argument i op iabx x =
      (x.b ≡ pos (getarg_bx i)) × (is_k f fs (opmodes op).b_mode ≡ true → getarg_bx i < length f.k)
  Argument i op iasbx x = Unit

  pub operands-Ensures :
      (pc i : ℕ) (op : OpCode) (mode : OpMode)
      → Ensures (Argument i op mode) (operands f fs pc i op mode)
  unfolding operands
  operands-Ensures pc i op iabc =
      Ensures-then _ _ _ (arg_mode-Ensures (getarg_b i) (opmodes op).b_mode)
        (Ensures-then _ _ _ (arg_mode-Ensures (getarg_c i) (opmodes op).c_mode) refl)
  operands-Ensures pc i op iabx = elim (Bool-cases (is_k f fs (opmodes op).b_mode)) [
    | inl constant ↦
        rw constant
          (Ensures-check _ (ltb (getarg_bx i) (length f.k)) _ λ inside. (refl, λ e. ground arith))
    | inr other ↦ rw other (refl, λ e. cc)
  ]
  operands-Ensures pc i op iasbx =
      Ensures-then _ _ _
        (when-Ensures (is_r f fs (opmodes op).b_mode) _
          (check_jump-Ensures (dest_of f fs pc (getarg_sbx i))))
        tt

  checkopenop-Ensures : (i : ℕ) → Ensures Anything (checkopenop i)
  unfolding checkopenop
  checkopenop-Ensures i =
      Ensures-check Anything (is_some_op takes_open (opcode_of i)) (check (getarg_b i == 0))
        λ open_op. check-Ensures _

  check_skip-Ensures : (pc : ℕ) → Ensures Anything (check_skip f fs pc)
  unfolding check_skip
  check_skip-Ensures pc =
      Ensures-check Anything (ltb (pc + 2) (length f.code)) _
        λ room. Ensures-read Anything f.code (pc + 1) _ (ground arith) λ d. check-Ensures _

  check_open-Ensures : (pc : ℕ) → pc + 1 < length f.code → Ensures Anything (check_open f fs pc)
  check_open-Ensures pc h = Ensures-read Anything f.code (pc + 1) checkopenop h checkopenop-Ensures

  check_results-Ensures :
      (pc a c : ℕ) → pc + 1 < length f.code → Ensures Anything (check_results f fs pc a c)
  unfolding check_results
  check_results-Ensures pc a zero h = check_open-Ensures pc h
  check_results-Ensures pc a (suc c) h =
      let small = ltb_ℤ (pos (a + c) -ℤ pos 1) (pos f.maxstacksize) in
      when-Ensures (not (c == 0)) (check small) (check-Ensures small)

  pub check_test-Ensures : (b : Bool) (pc : ℕ) → Ensures Anything (check_test f fs b pc)
  unfolding check_test
  check_test-Ensures true pc =
      Ensures-check Anything (ltb (pc + 2) (length f.code)) _
        λ inside. Ensures-read Anything f.code (pc + 1) _ (ground arith) λ i. check-Ensures _
  check_test-Ensures false pc = tt

  -- a step goes on, and `last` stays in the code
  abbrev pub Goes : Position → Position → Type 0
  Goes p q = (p.pc ≤ q.pc) × (q.last < length f.code)

  pub changed-Goes :
      (b : Bool) (p : Position)
      → p.pc < length f.code
      → p.last < length f.code
      → Goes p (changed f fs b p)
  changed-Goes true p h k = (omega arith, h)
  changed-Goes false p h k = (omega arith, k)

  jump-Goes :
      (reg lastpc : ℕ) (b : ℤ) (p : Position)
      → p.last < length f.code
      → Goes p (jump f fs reg lastpc b p)
  unfolding jump ◌+ℤ◌
  jump-Goes reg lastpc b p h = ground arith

  skip_count-Goes :
      (b : Bool) (p : Position) → p.last < length f.code → Ensures (Goes p) (skip_count f fs b p)
  unfolding skip_count
  skip_count-Goes true p h =
      Ensures-check _ (ltb (p.pc + 1) (length f.code - 1)) _ λ inside. (omega arith, h)
  skip_count-Goes false p h = (omega arith, h)

  read_at-Ensures :
      {A B : Type 0} (Q : B → Type 0) (xs : List A) (b : ℤ) (n : ℕ) (g : A → Checked B)
      → b ≡ pos n
      → n < length xs
      → ((x : A) → Ensures Q (g x))
      → Ensures Q (read_at xs b >>= g)
  unfolding read_at
  read_at-Ensures Q xs b n g e h k = rw e (Ensures-read Q xs n g h k)

  -- an instruction and its position
  module _ (i reg lastpc : ℕ) (x : Operands) (p : Position) (inside : p.pc < length f.code)
      (last_inside : p.last < length f.code) where
    stays : Goes p p
    stays = (omega arith, last_inside)

    call-Ensures : p.pc + 1 < length f.code → Ensures (Goes p) (effect f fs op_call x reg lastpc p)
    unfolding effect
    call-Ensures h =
        let small = ltb_ℤ (pos x.a +ℤ x.b -ℤ pos 1) (pos f.maxstacksize) in
        let next = passed (changed f fs (leb x.a reg) p) in
        Ensures-then (Goes p) (when f fs (not (pos_part x.b == 0)) (check small))
          (check_results f fs p.pc x.a x.c >> next)
          (when-Ensures (not (pos_part x.b == 0)) (check small) (check-Ensures small))
          (Ensures-then (Goes p) (check_results f fs p.pc x.a x.c) next
            (check_results-Ensures p.pc x.a x.c h)
            (changed-Goes (leb x.a reg) p inside last_inside))

    name-Ensures :
        Argument i op_getglobal iabx x → Ensures (Goes p) (effect f fs op_getglobal x reg lastpc p)
    unfolding effect opmodes
    name-Ensures (e, within) =
        read_at-Ensures (Goes p) f.k x.b (getarg_bx i) _ e (within refl)
          λ k. Ensures-check _ (is_string k) _ λ s. stays

    closure-Ensures :
        Argument i op_closure iabx x → Ensures (Goes p) (effect f fs op_closure x reg lastpc p)
    unfolding effect
    closure-Ensures (e, within) = Ensures-check _ (ltb_ℤ x.b (pos (length (nups_of fs)))) _ λ small.
        read_at-Ensures (Goes p) (nups_of fs) x.b (getarg_bx i) _ e (ground arith) λ nup.
          Ensures-check _ (ltb (p.pc + nup) (length f.code)) _ λ room.
            Ensures-then _ _ _ (check_pseudo-Ensures nup (p.pc + 1) (ground arith)) (ground arith)

    loadbool-Ensures : Ensures (Goes p) (effect f fs op_loadbool x reg lastpc p)
    unfolding effect
    loadbool-Ensures =
        Ensures-then (Goes p) (when f fs (x.c == 1) (check_skip f fs p.pc)) (passed p)
          (when-Ensures (x.c == 1) (check_skip f fs p.pc) (check_skip-Ensures p.pc)) stays

    vararg-Ensures :
        p.pc + 1 < length f.code → Ensures (Goes p) (effect f fs op_vararg x reg lastpc p)
    unfolding effect
    vararg-Ensures h =
        let flags = f.is_vararg / 2 % 2 == 1 && f.is_vararg / 4 % 2 == 0 in
        let open_op = when f fs (ltb_ℤ (x.b -ℤ pos 1) (pos 0)) (check_open f fs p.pc) in
        let small = ltb_ℤ (pos x.a +ℤ (x.b -ℤ pos 1) -ℤ pos 1) (pos f.maxstacksize) in
        Ensures-check (Goes p) flags (open_op >> (check small >> passed p)) λ v.
          Ensures-then (Goes p) open_op (check small >> passed p)
            (when-Ensures (ltb_ℤ (x.b -ℤ pos 1) (pos 0)) (check_open f fs p.pc)
              (check_open-Ensures p.pc h))
            (Ensures-check (Goes p) small (passed p) λ fits. stays)

    -- the operations that check a register or a number and go on
    only_check : (b : Bool) → Ensures (Goes p) (check b >> passed p)
    only_check b = Ensures-check (Goes p) b (passed p) λ h. stays

    check_then : (b : Bool) (q : Position) → Goes p q → Ensures (Goes p) (check b >> passed q)
    check_then b q h = Ensures-check (Goes p) b (passed q) λ ok. h

    pub effect-Ensures :
        (op : OpCode)
        → (is_return op ≡ false → p.pc + 1 < length f.code)
        → Argument i op (opmodes op).mode x
        → Ensures (Goes p) (effect f fs op x reg lastpc p)
    unfolding effect opmodes
    effect-Ensures op_loadbool more arg = loadbool-Ensures
    effect-Ensures op_loadnil more arg =
        changed-Goes (leb x.a reg && not (ltb_ℤ x.b (pos reg))) p inside last_inside
    effect-Ensures op_getupval more arg = only_check (ltb_ℤ x.b (pos f.nups))
    effect-Ensures op_setupval more arg = only_check (ltb_ℤ x.b (pos f.nups))
    effect-Ensures op_getglobal more arg = name-Ensures arg
    effect-Ensures op_setglobal more arg = name-Ensures arg
    effect-Ensures op_self more arg =
        check_then (ltb_ℤ (pos (x.a + 1)) (pos f.maxstacksize)) _
          (changed-Goes (reg == x.a + 1) p inside last_inside)
    effect-Ensures op_concat more arg = only_check (ltb_ℤ x.b (pos x.c))
    effect-Ensures op_tforloop more arg =
        let q = changed f fs (leb (x.a + 2) reg) p in
        let small = ltb_ℤ (pos (x.a + 2 + x.c)) (pos f.maxstacksize) in
        Ensures-check (Goes p) (leb 1 x.c) (check small >> passed q)
          λ h. check_then small q (changed-Goes (leb (x.a + 2) reg) p inside last_inside)
    effect-Ensures op_forloop more arg =
        check_then (ltb_ℤ (pos (x.a + 3)) (pos f.maxstacksize)) _
          (jump-Goes reg lastpc x.b p last_inside)
    effect-Ensures op_forprep more arg =
        check_then (ltb_ℤ (pos (x.a + 3)) (pos f.maxstacksize)) _
          (jump-Goes reg lastpc x.b p last_inside)
    effect-Ensures op_jmp more arg = jump-Goes reg lastpc x.b p last_inside
    effect-Ensures op_call more arg = call-Ensures (more refl)
    effect-Ensures op_tailcall more arg = call-Ensures (more refl)
    effect-Ensures op_return more arg =
        let b = x.b -ℤ pos 1 in
        let small = ltb_ℤ (pos x.a +ℤ b -ℤ pos 1) (pos f.maxstacksize) in
        Ensures-then (Goes p) (when f fs (ltb_ℤ (pos 0) b) (check small)) (passed p)
          (when-Ensures (ltb_ℤ (pos 0) b) (check small) (check-Ensures small)) stays
    effect-Ensures op_setlist more arg =
        let small = ltb_ℤ (pos x.a +ℤ x.b) (pos f.maxstacksize) in
        Ensures-then (Goes p) (when f fs (ltb_ℤ (pos 0) x.b) (check small))
          (skip_count f fs (x.c == 0) p)
          (when-Ensures (ltb_ℤ (pos 0) x.b) (check small) (check-Ensures small))
          (skip_count-Goes (x.c == 0) p last_inside)
    effect-Ensures op_closure more arg = closure-Ensures arg
    effect-Ensures op_vararg more arg = vararg-Ensures (more refl)
    effect-Ensures _ more arg = stays
