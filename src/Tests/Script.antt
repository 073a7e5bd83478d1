-- ===== src/Tests/Script.antt =====
-- Runs of the wrapper on concrete inputs, on the functions of lapi.c with integers for numbers.
use luascript.Prelude.{
  Option, true, false, ◌+◌, ◌-◌, ◌^◌, ◌≡◌, ◌≢◌, refl, none, some, List, [], ◌∷◌, ◌++◌, arith,
}
use luascript.Prelude.Bytes.{Bytes, codes, c_str, find, rfind}
use luascript.Prelude.Int.{ℤ, pos, negsuc}
use luascript.Core.Value.{Value, nil, boolean, number, str}
use luascript.Core.Chunk.{addinfo, excerpt}
use luascript.Core.Api.{LuaState}
use luascript.Script.Exception.{new_exception}
use luascript.Script.Exception.Laws.{
  new_exception-addinfo, new_exception_cut, new_exception_no_line,
}
use luascript.Script.Args.{
  Arg, bool_arg, int_arg, string_arg, Store, done, throw, world, clone_args, unpack_arg, pack_arg,
  World, M, Address, alloc, ret, add_arg, ◌>>=◌,
}
use luascript.Script.Args.Blocks.{clone_args-fresh}
use luascript.Script.Args.Values.{
  ReadsAll, reads_int, reads_string, reads_nil, reads_cons, rejects_int, rejection, to_value,
  unpack_arg-pack_arg,
}
use luascript.Script.Callback.{Function, prototype, lua_callback}
use luascript.Script.Callback.Laws.{lua_callback-done}
use luascript.Script.Callback.Failure.{lua_callback-refuses}
use luascript.Script.Variable.{get_variable, set_variable}
use luascript.Script.Variable.Laws.{
  globals-set_variable, get_variable-Reads, get_variable-Rejects, get_variable-set_variable,
}
use luascript.Script.Register.{register_function, Registers, register_function_global}
use luascript.Tests.{integers, machine, state_of, two_values}

-- exceptions
no_bracket : find (codes "]:") (excerpt (codes "f(nil)") 43) ≡ none
unfolding find excerpt
no_bracket = refl

no_colon : rfind (codes ": ") (codes "oops") ≡ none
unfolding rfind
no_colon = refl

new_exception-addinfo_example :
    new_exception (addinfo (codes "f(nil)") 12 (codes "oops")) ≡ record {
      msg = addinfo (codes "f(nil)") 12 (codes "oops");
      line = some (pos 12);
      error = codes "oops";
    }
new_exception-addinfo_example =
    new_exception-addinfo (codes "f(nil)") (codes "oops") 12 (omega arith, omega arith) no_bracket
      no_colon

new_exception_cut_example :
    ((new_exception (addinfo (codes "f(nil)") 3 (codes "a" ++ (b':' ∷ b' ' ∷ codes "oops")))).error
      ≡ codes "oops")
    × ((new_exception (addinfo (codes "f(nil)") 3 (codes "a" ++ (b':' ∷ b' ' ∷ codes "oops")))).line
        ≡ some (pos 3))
new_exception_cut_example =
    new_exception_cut (codes "f(nil)") (codes "a") (codes "oops") 3 (omega arith, omega arith)
      no_bracket no_colon

method_text :
    excerpt (codes "t[1]:go()") 43 ≡ codes "t[" ++ (b'1' ∷ b']' ∷ b':' ∷ b'g' ∷ codes "o()")
unfolding excerpt
method_text = refl

method_before : find (codes "]:") (codes "t[" ++ b'1' ∷ []) ≡ none
unfolding find
method_before = refl

new_exception_no_line_example :
    (new_exception (addinfo (codes "t[1]:go()") 1 (codes "oops"))).line ≡ none
new_exception_no_line_example =
    new_exception_no_line (codes "t[1]:go()") (codes "t[") (codes "o()") (codes "oops") b'1' b'g' 1
      (omega arith, omega arith) method_text (omega arith) method_before (omega arith)

-- one object
no_nul : c_str (codes "abc") ≡ codes "abc"
unfolding c_str
no_nul = refl

unpack_arg-pack_arg_example :
    (unpack_arg machine
        (string_arg [])
        3
        (pack_arg machine (string_arg (codes "abc")) (state_of two_values))
      ≡ (
        done (string_arg (codes "abc")),
        pack_arg machine (string_arg (codes "abc")) (state_of two_values),
      ))
    × (machine.globals (pack_arg machine (string_arg (codes "abc")) (state_of two_values))
        ≡ machine.globals (state_of two_values))
unpack_arg-pack_arg_example =
    unpack_arg-pack_arg machine (string_arg []) (string_arg (codes "abc")) (state_of two_values) tt
      no_nul

-- a function that swaps an integer and a string, and doubles the integer
abbrev doubled : ℤ → ℤ
doubled (pos n) = pos (n + n)
doubled (negsuc n) = negsuc (n + n + 1)

abbrev swap : List Arg → List Arg → List Arg
swap (int_arg z ∷ string_arg s ∷ []) outs = string_arg s ∷ int_arg (doubled z) ∷ []
swap ins outs = outs

abbrev swapper : Function
swapper = record { name = codes "swap"; in_args = 0 ∷ 1 ∷ []; out_args = 2 ∷ 3 ∷ []; calc = swap }

abbrev prototypes : Store
prototypes =
    some (int_arg (pos 0))
    ∷ some (string_arg [])
    ∷ some (string_arg [])
    ∷ some (int_arg (pos 0))
    ∷ []

clone_args-fresh_example : clone_args (0 ∷ 1 ∷ []) (world (state_of two_values) prototypes) ≡ (
  done (4 ∷ 5 ∷ []),
  world (state_of two_values) (prototypes ++ (some (int_arg (pos 0)) ∷ some (string_arg []) ∷ [])),
)
clone_args-fresh_example =
    clone_args-fresh (state_of two_values) prototypes (0 ∷ 1 ∷ [])
      (int_arg (pos 0) ∷ string_arg [] ∷ []) (refl, (refl, tt))

read_all :
    ReadsAll integers
      (int_arg (pos 0) ∷ string_arg [] ∷ [])
      two_values
      (int_arg (pos 7) ∷ string_arg (c_str (codes "abc")) ∷ [])
read_all =
    reads_cons (reads_int (pos 0) (number (pos 7)) (pos 7) (pos 7) refl (omega arith, refl))
      (reads_cons (reads_string [] (codes "abc")) reads_nil)

lua_callback-done_example :
    (l' : LuaState integers) × (lua_callback machine swapper
        (world (state_of two_values) prototypes)
      ≡ (done 2, world l' (prototypes ++ (none ∷ none ∷ none ∷ none ∷ []))))
    × (l'.stack
        ≡ two_values
          ++ (to_value integers (string_arg (c_str (codes "abc"))) ∷ number (pos 14) ∷ []))
    × (l'.globals ≡ (state_of two_values).globals)
lua_callback-done_example =
    lua_callback-done machine swapper (state_of two_values) prototypes
      (int_arg (pos 0) ∷ string_arg [] ∷ [])
      (int_arg (pos 7) ∷ string_arg (c_str (codes "abc")) ∷ [])
      (string_arg [] ∷ int_arg (pos 0) ∷ []) (refl, (refl, tt)) (refl, (refl, tt)) read_all refl

abbrev wrong_values : List (Value ℤ)
wrong_values = boolean true ∷ str (codes "abc") ∷ []

lua_callback-refuses_example :
    lua_callback machine swapper (world (state_of wrong_values) prototypes) ≡ (
      throw (rejection (int_arg (pos 0))),
      world (state_of wrong_values) (prototypes ++ (none ∷ none ∷ [])),
    )
lua_callback-refuses_example =
    lua_callback-refuses machine swapper (state_of wrong_values) prototypes []
      (str (codes "abc") ∷ []) (boolean true) [] [] (string_arg [] ∷ []) (int_arg (pos 0))
      (refl, (refl, tt)) refl refl reads_nil (rejects_int (pos 0) (boolean true) refl)

-- variables
abbrev x_is : Value ℤ → LuaState integers
x_is v = record (state_of two_values) { globals = λ name. v }

globals-set_variable_example :
    (machine.globals
        (set_variable machine (codes "x") (int_arg (pos 7)) (state_of two_values))
        (c_str (codes "x"))
      ≡ number (pos 7))
    × (machine.stack (set_variable machine (codes "x") (int_arg (pos 7)) (state_of two_values))
        ≡ two_values)
    × ((other : Bytes)
        → other ≢ c_str (codes "x")
        → machine.globals
            (set_variable machine (codes "x") (int_arg (pos 7)) (state_of two_values))
            other
          ≡ nil)
globals-set_variable_example =
    globals-set_variable machine (codes "x") (int_arg (pos 7)) (state_of two_values)

abbrev large : Value ℤ
large = number (pos (2 ^ 40 + 2 ^ 31))

get_variable-Reads_example :
    (l' : LuaState integers) × (get_variable machine (int_arg (pos 3)) (codes "x") (x_is large)
      ≡ (done (int_arg (negsuc (2 ^ 31 - 1))), l'))
    × (l'.stack ≡ [])
    × (l'.globals ≡ (x_is large).globals)
get_variable-Reads_example =
    get_variable-Reads machine (int_arg (pos 3)) (int_arg (negsuc (2 ^ 31 - 1))) (codes "x")
      (x_is large)
      (reads_int (pos 3) large (pos (2 ^ 40 + 2 ^ 31)) (negsuc (2 ^ 31 - 1)) refl
        (omega arith, omega arith))

get_variable-Rejects_example :
    (l' : LuaState integers) × (get_variable machine
        (int_arg (pos 0))
        (codes "x")
        (x_is (boolean true))
      ≡ (throw (rejection (int_arg (pos 0))), l'))
    × (l'.stack ≡ two_values ++ boolean true ∷ [])
    × (l'.globals ≡ (x_is (boolean true)).globals)
get_variable-Rejects_example =
    get_variable-Rejects machine (int_arg (pos 0)) (codes "x") (x_is (boolean true))
      (rejects_int (pos 0) (boolean true) refl)

get_variable-set_variable_example :
    (l' : LuaState integers) × (get_variable machine
        (int_arg (pos 0))
        (codes "x")
        (set_variable machine (codes "x") (int_arg (negsuc 4)) (state_of two_values))
      ≡ (done (int_arg (negsuc 4)), l'))
    × (l'.globals
        ≡ machine.globals
            (set_variable machine (codes "x") (int_arg (negsuc 4)) (state_of two_values)))
get_variable-set_variable_example =
    get_variable-set_variable machine (int_arg (pos 0)) (int_arg (negsuc 4)) (codes "x")
      (state_of two_values) tt (omega arith)

register_function_global_example :
    (l' : LuaState integers) × (register_function machine [] (codes "hex") 5 (state_of two_values)
      ≡ (done tt, l'))
    × Registers machine (codes "hex") 5 (state_of two_values) l'
register_function_global_example =
    register_function_global machine (codes "hex") 5 (state_of two_values)

-- a prototype is made once
abbrev one_flag : M (LuaState integers) (List Address)
one_flag = do a ← alloc (bool_arg false); ret (add_arg [] a)

made_once :
    (w : World (LuaState integers))
    → (prototype none one_flag >>= λ (r : Option (List Address) × List Address).
          prototype r.0 one_flag)
        w
      ≡ prototype none one_flag w
unfolding prototype
made_once w = refl
