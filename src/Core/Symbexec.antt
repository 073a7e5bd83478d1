-- ===== src/Core/Symbexec.antt =====
-- The checker of byte code: `luaG_checkcode` and `symbexec` of luascript/lua/ldebug.c. `check(x)` returns
-- 0 from the function: that is `refused`. A read outside an array is `out_of_range`, and `stuck` is fuel
-- run out.
mod Result
pub mod Ensures
pub mod Safe
pub mod Ends
use luascript.Prelude.{
  ℕ, zero, suc, ◌+◌, ◌-◌, ◌/◌, ◌%◌, Bool, true, false, not, ◌&&◌, ◌||◌, Option, none, some, List,
  [], ◌∷◌, ◌==◌, ltb, leb, if◌then◌else◌, length, get_elem?,
}
use luascript.Prelude.Int.{ℤ, pos, negsuc, pos_part, ◌+ℤ◌, ◌-ℤ◌, ltb_ℤ}
use luascript.Core.Opcodes.{getarg_a, getarg_b, getarg_c, getarg_bx, getarg_sbx, isk, indexk}
use luascript.Core.Opcodes.Modes.{
  OpCode, op_move, op_loadbool, op_loadnil, op_getupval, op_setupval, op_getglobal, op_setglobal,
  op_self, op_concat, op_tforloop, op_forloop, op_forprep, op_jmp, op_call, op_tailcall, op_return,
  op_setlist, op_closure, op_vararg, opcode_of, OpMode, iabc, iabx, iasbx, OpArgMask, arg_n, arg_u,
  arg_r, arg_k, opmodes,
}
use luascript.Core.Binary.{
  Constant, kstring, ProtoInfo, Proto, Protos, proto, no_protos, more_protos,
}
pub use Result.{
  Checked, passed, refused, out_of_range, stuck, ◌>>=◌, ◌>>◌, check, in_range, maxstack, no_reg,
  is_some_op, is_return, is_jmp, is_setlist, takes_open, is_pseudo, nups_of, is_string,
  is_long_setlist,
}
unfoldable pub use Result.{read, read_at}

-- `luaG_checkopenop`
unfoldable pub checkopenop : ℕ → Checked (Unit {0})
checkopenop i = do check (is_some_op takes_open (opcode_of i)); check (getarg_b i == 0)

-- the arguments of an instruction: those that its mode does not have are 0
pub record Operands : Type 0 where
  pub a : ℕ
  pub b : ℤ
  pub c : ℕ

-- `pc` and `last` of `symbexec`
pub record Position : Type 0 where
  pub pc : ℕ
  pub last : ℕ

abbrev pub at : ℕ → ℕ → Position
at p l = record { pc = p; last = l }

module _ {Num : Type 0} (f : ProtoInfo Num) (fs : Protos Num) where
  abbrev pub sizecode : ℕ
  sizecode = length f.code

  abbrev pub checkreg : ℤ → Checked (Unit {0})
  checkreg reg = check (ltb_ℤ reg (pos f.maxstacksize))

  unfoldable pub precheck : Checked (Unit {0})
  unfolding read
  precheck = do
    check (leb f.maxstacksize maxstack)
    check (leb (f.numparams + f.is_vararg % 2) f.maxstacksize)
    check (f.is_vararg / 4 % 2 == 0 || f.is_vararg % 2 == 1)
    check (leb (length f.upvalues) f.nups)
    check (length f.lineinfo == sizecode || length f.lineinfo == 0)
    check (ltb 0 sizecode)
    i ← read f.code (sizecode - 1)
    check (is_some_op is_return (opcode_of i))

  unfoldable pub check_arg_mode : ℕ → OpArgMask → Checked (Unit {0})
  check_arg_mode r arg_n = check (r == 0)
  check_arg_mode r arg_u = passed tt
  check_arg_mode r arg_r = checkreg (pos r)
  check_arg_mode r arg_k =
      check (if isk r then ltb (indexk r) (length f.k) else ltb r f.maxstacksize)

  -- `for (j = 0; j < dest; j++)` backwards over SETLISTs, with the rounds left, `dest - j`
  unfoldable pub count_setlists : ℕ → ℕ → Checked ℕ
  unfolding read
  count_setlists zero j = passed j
  count_setlists (suc k) j =
      let rest = count_setlists k (j + 1) in
      (read f.code k >>= λ d. if is_long_setlist d then rest else passed j)

  -- the check of a jump to `dest`
  unfoldable pub check_jump : ℤ → Checked (Unit {0})
  unfolding count_setlists
  check_jump (negsuc n) = refused
  check_jump (pos dest) = do
    check (ltb dest sizecode)
    j ← count_setlists dest 0
    check (j % 2 == 0)

  abbrev pub is_k : OpArgMask → Bool
  is_k arg_k = true
  is_k _ = false

  abbrev pub is_r : OpArgMask → Bool
  is_r arg_r = true
  is_r _ = false

  abbrev pub dest_of : ℕ → ℤ → ℤ
  dest_of pc b = pos (pc + 1) +ℤ b

  abbrev pub when : Bool → Checked (Unit {0}) → Checked (Unit {0})
  when true m = m
  when false m = passed tt

  -- the switch on `getOpMode(op)`
  unfoldable pub operands : ℕ → ℕ → OpCode → OpMode → Checked Operands
  unfolding check_arg_mode check_jump
  operands pc i op iabc = do
    check_arg_mode (getarg_b i) (opmodes op).b_mode
    check_arg_mode (getarg_c i) (opmodes op).c_mode
    passed (record { a = getarg_a i; b = pos (getarg_b i); c = getarg_c i })
  operands pc i op iabx = do
    when (is_k (opmodes op).b_mode) (check (ltb (getarg_bx i) (length f.k)))
    passed (record { a = getarg_a i; b = pos (getarg_bx i); c = 0 })
  operands pc i op iasbx = do
    when (is_r (opmodes op).b_mode) (check_jump (dest_of pc (getarg_sbx i)))
    passed (record { a = getarg_a i; b = getarg_sbx i; c = 0 })

  -- `for (j = 1; j <= nup; j++)` over the pseudo-instructions, with those left and the next index
  unfoldable pub check_pseudo : ℕ → ℕ → Checked (Unit {0})
  unfolding read
  check_pseudo zero p = passed tt
  check_pseudo (suc k) p = do
    i ← read f.code p
    check (is_some_op is_pseudo (opcode_of i))
    check_pseudo k (p + 1)

  abbrev pub changed : Bool → Position → Position
  changed true p = record p { last = p.pc }
  changed false p = p

  abbrev pub check_open : ℕ → Checked (Unit {0})
  check_open pc = do i ← read f.code (pc + 1); checkopenop i

  -- the case of OP_JMP: `reg` is no register in a full check
  unfoldable pub jump : ℕ → ℕ → ℤ → Position → Position
  jump reg lastpc b p =
      let dest = dest_of p.pc b in
      if not (reg == no_reg) && (ltb_ℤ (pos p.pc) dest && not (ltb_ℤ (pos lastpc) dest))
      then record p { pc = pos_part (pos p.pc +ℤ b) }
      else p

  -- the number of results, behind `c--`
  unfoldable pub check_results : ℕ → ℕ → ℕ → Checked (Unit {0})
  unfolding read checkopenop
  check_results pc a zero = check_open pc
  check_results pc a (suc c) = when (not (c == 0)) (checkreg (pos (a + c) -ℤ pos 1))

  unfoldable pub skip_count : Bool → Position → Checked Position
  skip_count true p = do check (ltb (p.pc + 1) (sizecode - 1)); passed (record p { pc = p.pc + 1 })
  skip_count false p = passed p

  -- a LOADBOOL that jumps
  unfoldable pub check_skip : ℕ → Checked (Unit {0})
  unfolding read
  check_skip pc = do
    check (ltb (pc + 2) sizecode)
    i ← read f.code (pc + 1)
    check (not (is_long_setlist i))

  -- the switch on `op`
  unfoldable pub effect : OpCode → Operands → ℕ → ℕ → Position → Checked Position
  unfolding read read_at checkopenop check_pseudo jump check_results skip_count check_skip
  effect op_loadbool x reg lastpc p = do when (x.c == 1) (check_skip p.pc); passed p
  effect op_loadnil x reg lastpc p = passed (changed (leb x.a reg && not (ltb_ℤ x.b (pos reg))) p)
  effect op_getupval x reg lastpc p = do check (ltb_ℤ x.b (pos f.nups)); passed p
  effect op_setupval x reg lastpc p = do check (ltb_ℤ x.b (pos f.nups)); passed p
  effect op_getglobal x reg lastpc p = do k ← read_at f.k x.b; check (is_string k); passed p
  effect op_setglobal x reg lastpc p = do k ← read_at f.k x.b; check (is_string k); passed p
  effect op_self x reg lastpc p = do checkreg (pos (x.a + 1)); passed (changed (reg == x.a + 1) p)
  effect op_concat x reg lastpc p = do check (ltb_ℤ x.b (pos x.c)); passed p
  effect op_tforloop x reg lastpc p = do
    check (leb 1 x.c)
    checkreg (pos (x.a + 2 + x.c))
    passed (changed (leb (x.a + 2) reg) p)
  effect op_forloop x reg lastpc p = do checkreg (pos (x.a + 3)); passed (jump reg lastpc x.b p)
  effect op_forprep x reg lastpc p = do checkreg (pos (x.a + 3)); passed (jump reg lastpc x.b p)
  effect op_jmp x reg lastpc p = passed (jump reg lastpc x.b p)
  effect op_call x reg lastpc p = do
    when (not (pos_part x.b == 0)) (checkreg (pos x.a +ℤ x.b -ℤ pos 1))
    check_results p.pc x.a x.c
    passed (changed (leb x.a reg) p)
  effect op_tailcall x reg lastpc p = do
    when (not (pos_part x.b == 0)) (checkreg (pos x.a +ℤ x.b -ℤ pos 1))
    check_results p.pc x.a x.c
    passed (changed (leb x.a reg) p)
  effect op_return x reg lastpc p = do
    let b = x.b -ℤ pos 1
    when (ltb_ℤ (pos 0) b) (checkreg (pos x.a +ℤ b -ℤ pos 1))
    passed p
  effect op_setlist x reg lastpc p = do
    when (ltb_ℤ (pos 0) x.b) (checkreg (pos x.a +ℤ x.b))
    skip_count (x.c == 0) p
  effect op_closure x reg lastpc p = do
    check (ltb_ℤ x.b (pos (length (nups_of fs))))
    nup ← read_at (nups_of fs) x.b
    check (ltb (p.pc + nup) sizecode)
    check_pseudo nup (p.pc + 1)
    passed (if not (reg == no_reg) then record p { pc = p.pc + nup } else p)
  effect op_vararg x reg lastpc p = do
    check (f.is_vararg / 2 % 2 == 1 && f.is_vararg / 4 % 2 == 0)
    let b = x.b -ℤ pos 1
    when (ltb_ℤ b (pos 0)) (check_open p.pc)
    checkreg (pos x.a +ℤ b -ℤ pos 1)
    passed p
  effect _ x reg lastpc p = passed p

  -- the checks around the first switch
  unfoldable pub check_test : Bool → ℕ → Checked (Unit {0})
  unfolding read
  check_test true pc = do
    check (ltb (pc + 2) sizecode)
    i ← read f.code (pc + 1)
    check (is_some_op is_jmp (opcode_of i))
  check_test false pc = passed tt

  -- one round of the loop for an operation that there is
  unfoldable pub step_op : Option OpCode → ℕ → ℕ → ℕ → Position → Checked Position
  unfolding operands effect check_test
  step_op none i reg lastpc p = refused
  step_op (some op) i reg lastpc p = do
    checkreg (pos (getarg_a i))
    x ← operands p.pc i op (opmodes op).mode
    let p' = changed ((opmodes op).sets_a && x.a == reg) p
    check_test (opmodes op).test p.pc
    effect op x reg lastpc p'

  unfoldable pub step : ℕ → ℕ → Position → Checked Position
  unfolding read step_op
  step reg lastpc p = do i ← read f.code p.pc; step_op (opcode_of i) i reg lastpc p

  -- the loop on the rounds left; then `pt->code[last]`
  unfoldable pub symbexec_loop : ℕ → ℕ → ℕ → Position → Checked ℕ
  unfolding step
  symbexec_loop zero reg lastpc p = if ltb p.pc lastpc then stuck else read f.code p.last
  symbexec_loop (suc k) reg lastpc p =
      let next =
        (step reg lastpc p >>= λ q. symbexec_loop k reg lastpc (record q { pc = q.pc + 1 })) in
      if ltb p.pc lastpc then next else read f.code p.last

  unfoldable pub symbexec : ℕ → ℕ → Checked ℕ
  unfolding precheck symbexec_loop
  symbexec lastpc reg = do precheck; symbexec_loop lastpc reg lastpc (at 0 (sizecode - 1))

abbrev pub is_nonzero : Checked ℕ → Bool
is_nonzero (passed i) = not (i == 0)
is_nonzero _ = false

unfoldable pub checkcode : {Num : Type 0} → Proto Num → Bool
unfolding symbexec
checkcode (proto f fs) = is_nonzero (symbexec f fs (length f.code) no_reg)
