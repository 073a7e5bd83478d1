-- ===== src/Script/Args.antt =====
-- `lua::arg_t` with its three classes and `lua::args_t` (luascript/luascript.h, luascript.cpp). The
-- objects live in a store and an `args_t` is the list of their addresses, since the wrapper clones,
-- overwrites and deletes them; a deleted cell is `none`. A method runs on a Lua state and a store, and
-- ends with a result, with an exception, or with `fault` where the C++ program has no defined meaning.
pub mod Blocks
pub mod Narrow
pub mod Values
use luascript.Prelude.{
  ℕ, zero, suc, ◌+◌, Bool, true, false, Option, none, some, List, [], ◌∷◌, ◌++◌, if◌then◌else◌,
  length, get_elem?, set, ◌-◌, ◌%◌, ◌^◌, ltb,
}
use luascript.Prelude.Bytes.{Bytes, codes, c_str}
use luascript.Prelude.Int.{ℤ, pos, negsuc}
use luascript.Core.Chunk.{decimal}
use luascript.Core.Value.{Number, Value, boolean, number, str}
use luascript.Script.Api.{LuaApi}
use luascript.Script.Exception.{LuaException, new_exception}

pub data Arg : Type 0 where
  bool_arg : Bool → Arg
  int_arg : ℤ → Arg
  string_arg : Bytes → Arg

abbrev pub Address : Type 0
Address = ℕ

abbrev pub Store : Type 0
Store = List (Option Arg)

pub data Outcome (A : Type 0) : Type 0 where
  done : A → Outcome A
  threw : LuaException → Outcome A
  fault : Outcome A

-- `throw lua::exception(text)`
abbrev pub throw : {A : Type 0} → Bytes → Outcome A
throw text = threw (new_exception text)

-- `bool_arg_t::asString` and the other two, which print to a stringstream
unfoldable pub as_string : Arg → Bytes
as_string (bool_arg b) = if b then codes "1" else codes "0"
as_string (int_arg (pos n)) = decimal n
as_string (int_arg (negsuc n)) = codes "-" ++ decimal (suc n)
as_string (string_arg s) = s

-- `value_type(..)`, the conversion of a `ptrdiff_t` to an `int`: the lowest 32 bits, read as a number in
-- two's complement, as compilers define it for a value that is out of range
unfoldable pub signed : ℕ → ℤ
signed r = if ltb r (2 ^ 31) then pos r else negsuc (2 ^ 32 - 1 - r)

unfoldable pub narrow : ℤ → ℤ
narrow (pos n) = signed (n % 2 ^ 32)
narrow (negsuc n) = signed (2 ^ 32 - 1 - n % 2 ^ 32)

-- a Lua state of type S and the objects
pub record World (S : Type 0) : Type 0 where
  pub lua : S
  pub store : Store

abbrev pub world : {S : Type 0} → S → Store → World S
world l st = record { lua = l; store = st }

abbrev pub M : Type 0 → Type 0 → Type 0
M S A = World S → Outcome A × World S

abbrev pub after : {S A B : Type 0} → Outcome A × World S → (A → M S B) → Outcome B × World S
after (done a, w) f = f a w
after (threw e, w) f = (threw e, w)
after (fault, w) f = (fault, w)

infixl 5 ◌>>=◌ ◌>>◌
abbrev pub ◌>>=◌ : {S A B : Type 0} → M S A → (A → M S B) → M S B
◌>>=◌ m f w = after (m w) f

abbrev pub ◌>>◌ : {S B : Type 0} → M S (Unit {0}) → M S B → M S B
m >> k = m >>= λ _. k

abbrev pub ret : {S A : Type 0} → A → M S A
ret a w = (done a, w)

-- `new`, a read, an assignment and `delete`, by address
abbrev pub alloc : {S : Type 0} → Arg → M S Address
alloc x w = (done (length w.store), record w { store = w.store ++ some x ∷ [] })

abbrev pub live : Option (Option Arg) → Option Arg
live (some (some x)) = some x
live _ = none

abbrev pub or_fault : {S : Type 0} → Option Arg → World S → Outcome Arg × World S
or_fault (some x) w = (done x, w)
or_fault none w = (fault, w)

unfoldable pub fetch : {S : Type 0} → Address → M S Arg
fetch a w = or_fault (live (get_elem? w.store a)) w

unfoldable pub write : {S : Type 0} → Address → Option Arg → M S (Unit {0})
unfolding fetch
write a x = do old ← fetch a; λ w. (done tt, record w { store = set w.store a x })

abbrev pub with_store : {S : Type 0} → Store → Outcome Arg × S → Outcome Arg × World S
with_store st (r, l) = (r, world l st)

-- `args_t::add`
abbrev pub add_arg : List Address → Address → List Address
add_arg ps a = ps ++ a ∷ []

-- `args_t::clone`, also the loop of the copy constructor
unfoldable pub clone_args : {S : Type 0} → List Address → M S (List Address)
unfolding fetch
clone_args [] = ret []
clone_args (a ∷ ps) = do x ← fetch a; b ← alloc x; bs ← clone_args ps; ret (b ∷ bs)

-- `~args_t` deletes each object
unfoldable pub delete_args : {S : Type 0} → List Address → M S (Unit {0})
unfolding write
delete_args [] = ret tt
delete_args (a ∷ ps) = do write a none; delete_args ps

module _ {N : Number} (api : LuaApi N) where
  open api use {
    State, is_boolean, is_number, is_string, to_boolean, to_integer, to_string, push_boolean,
    push_integer, push_string,
  }

  -- a Lua string as a `std::string`, which is made from a C string
  unfoldable pub assign_string : Option Bytes × State → Outcome Arg × State
  assign_string (none, l) = (fault, l)
  assign_string (some t, l) = (done (string_arg (c_str t)), l)

  -- the virtual methods `unpack` and `pack`; `unpack` gives the object's new value
  unfoldable pub unpack_arg : Arg → ℕ → State → Outcome Arg × State
  unfolding assign_string
  unpack_arg (bool_arg _) i l =
      if is_boolean l i
      then (done (bool_arg (to_boolean l i)), l)
      else (throw (codes "bool_arg_t::unpack(), value is not boolean"), l)
  unpack_arg (int_arg _) i l =
      if is_number l i
      then (done (int_arg (narrow (to_integer l i))), l)
      else (throw (codes "int_arg_t::unpack(), value is not integer"), l)
  unpack_arg (string_arg _) i l =
      if is_string l i
      then assign_string (to_string l i)
      else (throw (codes "string_arg_t::unpack(), value is not string"), l)

  unfoldable pub pack_arg : Arg → State → State
  pack_arg (bool_arg b) l = push_boolean b l
  pack_arg (int_arg z) l = push_integer z l
  pack_arg (string_arg s) l = push_string s l

  -- `at(i)->unpack(L, i + 1)` for each i; the counter here is i + 1
  unfoldable pub unpack_args : List Address → ℕ → M State (Unit {0})
  unfolding fetch write unpack_arg
  unpack_args [] i = ret tt
  unpack_args (a ∷ ps) i = do
    x ← fetch a
    y ← λ w. with_store w.store (unpack_arg x i w.lua)
    write a (some y)
    unpack_args ps (suc i)

  unfoldable pub pack_args : List Address → M State (Unit {0})
  unfolding fetch pack_arg
  pack_args [] = ret tt
  pack_args (a ∷ ps) = do
    x ← fetch a
    λ w. (done tt, record w { lua = pack_arg x w.lua })
    pack_args ps
