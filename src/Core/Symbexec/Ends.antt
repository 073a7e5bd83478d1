-- ===== src/Core/Symbexec/Ends.antt =====
-- The checker of byte code reads only inside the arrays of the function, whatever the byte code is, and
-- it ends.
use luascript.Prelude.{
  ℕ, zero, suc, ◌+◌, ◌-◌, ◌/◌, ◌%◌, ◌≤◌, ◌<◌, ◌≡◌, refl, ap, ◌∙◌, sym, ◌⊎◌, inl, inr, Bool, true,
  false, ◌&&◌, ◌||◌, Bool-cases, Option, none, some, List, [], ◌∷◌, arith, length, get_elem?, ltb,
  leb, ◌==◌,
}
use luascript.Prelude.Int.{pos, ltb_ℤ}
use luascript.Core.Opcodes.{getarg_a}
use luascript.Core.Opcodes.Modes.{OpCode, opcode_of, opmodes}
use luascript.Core.Binary.{ProtoInfo, Protos}
use luascript.Core.Symbexec.{
  Checked, passed, refused, out_of_range, stuck, ◌>>=◌, check, read, is_some_op, is_return,
  Position, at, precheck, operands, changed, effect, check_test, step_op, step, symbexec_loop,
  symbexec, maxstack,
}
use luascript.Core.Symbexec.Safe.{
  Argument, Goes, operands-Ensures, check_test-Ensures, changed-Goes, effect-Ensures,
}
use luascript.Core.Symbexec.Ensures.{Ensures, Anything, Ensures-bind, Ensures-check, Ensures-then}

Ensures-read_value :
    {A B : Type 0} (Q : B → Type 0) (xs : List A) (i : ℕ) (g : A → Checked B)
    → i < length xs
    → ((x : A) → get_elem? xs i ≡ some x → Ensures Q (g x))
    → Ensures Q (read xs i >>= g)
unfolding read
Ensures-read_value Q [] i g h k = absurd (omega arith)
Ensures-read_value Q (x ∷ xs) zero g h k = k x refl
Ensures-read_value Q (x ∷ xs) (suc i) g h k = Ensures-read_value Q xs i g (omega arith) k

check_value : (P : Unit {0} → Type 0) (b : Bool) → (b ≡ true → P tt) → Ensures P (check b)
check_value P true h = h refl
check_value P false h = tt

Ensures-weaken :
    {A : Type 0} (P Q : A → Type 0) (m : Checked A)
    → ((x : A) → P x → Q x)
    → Ensures P m
    → Ensures Q m
Ensures-weaken P Q (passed x) h k = h x k
Ensures-weaken P Q refused h k = tt
Ensures-weaken P Q out_of_range h k = k
Ensures-weaken P Q stuck h k = k

module _ {Num : Type 0} (f : ProtoInfo Num) (fs : Protos Num) where
  -- the code is not empty and ends with a RETURN
  abbrev Closed : Type 0
  Closed =
      (0 < length f.code)
      × ((i : ℕ)
          → get_elem? f.code (length f.code - 1) ≡ some i
          → is_some_op is_return (opcode_of i) ≡ true)

  pc-changed : (b : Bool) (p : Position) → (changed f fs b p).pc ≡ p.pc
  pc-changed true p = refl
  pc-changed false p = refl

  behind :
      (p : Position) (i : ℕ) (op : OpCode)
      → Closed
      → p.pc < length f.code
      → get_elem? f.code p.pc ≡ some i
      → opcode_of i ≡ some op
      → is_return op ≡ false
      → p.pc + 1 < length f.code
  behind p i op (size, closed) inside e o n = elim (Bool-cases (ltb (p.pc + 1) (length f.code))) [
    | inl room ↦ ground arith
    | inr full ↦
        let last : p.pc ≡ length f.code - 1 = ground arith in
        let ret = closed i (ap (get_elem? f.code) (sym last) ∙ e) in
        let is : is_some_op is_return (opcode_of i) ≡ is_return op = ap (is_some_op is_return) o in
        absurd (ground (arith, ret, is, n))
  ]

  step_op-Ensures :
      (o : Option OpCode) (i reg lastpc : ℕ) (p : Position)
      → Closed
      → p.pc < length f.code
      → p.last < length f.code
      → get_elem? f.code p.pc ≡ some i
      → opcode_of i ≡ o
      → Ensures (Goes f fs p) (step_op f fs o i reg lastpc p)
  unfolding step_op
  step_op-Ensures none i reg lastpc p closed inside last e o = tt
  step_op-Ensures (some op) i reg lastpc p closed inside last e o =
      Ensures-check (Goes f fs p) (ltb_ℤ (pos (getarg_a i)) (pos f.maxstacksize)) _ λ a_small.
        Ensures-bind (Argument f fs i op (opmodes op).mode) (Goes f fs p)
          (operands f fs p.pc i op (opmodes op).mode) _
          (operands-Ensures f fs p.pc i op (opmodes op).mode)
          λ x arg.
            let p' = changed f fs ((opmodes op).sets_a && x.a == reg) p in
            let (forward, last') =
              changed-Goes f fs ((opmodes op).sets_a && x.a == reg) p inside last in
            let same = pc-changed ((opmodes op).sets_a && x.a == reg) p in
            let run = effect f fs op x reg lastpc p' in
            Ensures-then (Goes f fs p) (check_test f fs (opmodes op).test p.pc) run
              (check_test-Ensures f fs (opmodes op).test p.pc)
              (Ensures-weaken (Goes f fs p') (Goes f fs p) run (λ q g. (omega arith, g.1))
                (effect-Ensures f fs i reg lastpc x p' (omega arith) last' op
                  (λ n. let room = behind p i op closed inside e o n in omega arith) arg))

  step-Ensures :
      (reg lastpc : ℕ) (p : Position)
      → Closed
      → p.pc < length f.code
      → p.last < length f.code
      → Ensures (Goes f fs p) (step f fs reg lastpc p)
  unfolding step
  step-Ensures reg lastpc p closed inside last =
      Ensures-read_value (Goes f fs p) f.code p.pc _ inside
        λ i e. step_op-Ensures (opcode_of i) i reg lastpc p closed inside last e refl

  read-Ensures : (i : ℕ) → i < length f.code → Ensures Anything (read f.code i)
  unfolding read
  read-Ensures i h = go f.code i h
    where
      go : (xs : List ℕ) (i : ℕ) → i < length xs → Ensures Anything (read xs i)
      go [] i h = absurd (omega arith)
      go (x ∷ xs) zero h = tt
      go (x ∷ xs) (suc i) h = go xs i (omega arith)

  loop-Ensures :
      (k reg lastpc : ℕ) (p : Position)
      → Closed
      → lastpc ≤ length f.code
      → lastpc - p.pc ≤ k
      → p.last < length f.code
      → Ensures Anything (symbexec_loop f fs k reg lastpc p)
  unfolding symbexec_loop
  loop-Ensures zero reg lastpc p closed h fuel last =
      let over : ltb p.pc lastpc ≡ false = ground arith in rw over (read-Ensures p.last last)
  loop-Ensures (suc k) reg lastpc p closed h fuel last = elim (Bool-cases (ltb p.pc lastpc)) [
    | inr over ↦ rw over (read-Ensures p.last last)
    | inl more ↦ rw more (
        Ensures-bind (Goes f fs p) Anything (step f fs reg lastpc p) _
          (step-Ensures reg lastpc p closed (ground arith) last)
          λ q g. loop-Ensures k reg lastpc (record q { pc = q.pc + 1 }) closed h (ground arith) g.1)
  ]

  precheck-Ensures : Ensures (λ u. Closed) (precheck f fs)
  unfolding precheck
  precheck-Ensures =
      let Q = λ (u : Unit {0}). Closed in
      Ensures-check Q (leb f.maxstacksize maxstack) _ λ h₁.
        Ensures-check Q (leb (f.numparams + f.is_vararg % 2) f.maxstacksize) _ λ h₂.
          Ensures-check Q (f.is_vararg / 4 % 2 == 0 || f.is_vararg % 2 == 1) _ λ h₃.
            Ensures-check Q (leb (length f.upvalues) f.nups) _ λ h₄.
              Ensures-check Q (length f.lineinfo == length f.code || length f.lineinfo == 0) _ λ h₅.
                Ensures-check Q (ltb 0 (length f.code)) _ λ some_code.
                  Ensures-read_value Q f.code (length f.code - 1) _ (ground arith) λ i e.
                    check_value Q (is_some_op is_return (opcode_of i)) λ ret. (
                      ground arith,
                      λ j e'. ap (λ t. is_some_op is_return (opcode_of t)) (cc) ∙ ret,
                    )

  -- `symbexec`, asked for the code up to any position in it and any register, reads only inside the
  -- arrays of the function, whatever its byte code is, and ends: it refuses the code or returns an
  -- instruction. As many rounds as there are positions are enough.
  pub symbexec_safe :
      (lastpc reg : ℕ)
      → lastpc ≤ length f.code
      → (symbexec f fs lastpc reg ≡ refused) ⊎ ((i : ℕ) × (symbexec f fs lastpc reg ≡ passed i))
  unfolding symbexec
  symbexec_safe lastpc reg h = outcome (symbexec f fs lastpc reg) (
      Ensures-bind (λ u. Closed) Anything (precheck f fs) _ precheck-Ensures
        λ u closed.
          loop-Ensures lastpc reg lastpc (at 0 (length f.code - 1)) closed h (omega arith)
            (ground (arith, closed.0)))
    where
      outcome : (m : Checked ℕ) → Ensures Anything m → (m ≡ refused) ⊎ ((i : ℕ) × (m ≡ passed i))
      outcome (passed i) e = inr (i, refl)
      outcome refused e = inl refl
      outcome out_of_range e = absurd e
      outcome stuck e = absurd e
