-- ===== src/Script/Exception/Laws.antt =====
-- What `lua::exception` makes of the messages that Lua's `addinfo` writes for a script.
use luascript.Prelude.{
  ℕ, suc, ◌+◌, ◌≤◌, ◌≡◌, ◌≢◌, refl, ap, ◌∙◌, none, some, [], ◌∷◌, ◌++◌, arith, length, drop,
  append_assoc,
}
use luascript.Prelude.Bytes.{Bytes, codes, c_str, find, rfind, sscanf_d}
use luascript.Prelude.Int.{pos}
use luascript.Core.Chunk.{addinfo, chunkid, decimal, excerpt, idsize}
use luascript.Script.Exception.{LuaException, new_exception, error_text}
use luascript.Script.Exception.Number.{sscanf_d-decimal}
use luascript.Script.Exception.Search.{find-append, rfind-append, find_snoc, drop_two, drop_three}

-- the name of the chunk is the text of the script, as it is for `luaL_dostring`, and no file's
abbrev pub IsScript : Bytes → Type 0
IsScript [] = Unit
IsScript (c ∷ s) = (c ≢ b'=') × (c ≢ b'@')

-- the decorated text of a script, up to the closing quote
abbrev opening : Bytes → Bytes
opening source = codes "[string \"" ++ excerpt source 43

chunkid-script :
    (source : Bytes) → IsScript source → chunkid source idsize ≡ opening source ++ codes "\"]"
unfolding chunkid
chunkid-script [] h = refl
chunkid-script (c ∷ s) h = ground (arith, h.0, h.1)

-- an error in a script, put together: what is before the "]:" of the chunk's name, and what follows
addinfo-script :
    (source err : Bytes) (line : ℕ)
    → IsScript source
    → addinfo source line err
      ≡ opening source ++ (b'"' ∷ b']' ∷ b':' ∷ (decimal line ++ (b':' ∷ b' ' ∷ err)))
unfolding addinfo
addinfo-script source err line h = rw (chunkid-script source h, append_assoc)

error_text-append :
    (before last : Bytes)
    → rfind (codes ": ") last ≡ none
    → error_text (before ++ (b':' ∷ b' ' ∷ last)) ≡ last
unfolding error_text
error_text-append before last h =
    rw (rfind-append 58 32 before last (omega arith) h, error_text) (drop_two before last 58 32)

-- the decoration holds no "]:" if the excerpt holds none
opening-find :
    (source : Bytes)
    → find (codes "]:") (excerpt source 43) ≡ none
    → find (codes "]:") (opening source ++ b'"' ∷ []) ≡ none
unfolding find
opening-find source h = ground (arith, find_snoc 93 58 (excerpt source 43) 34)

new_exception-found :
    (m : Bytes) (i : ℕ)
    → find (codes "]:") m ≡ some i
    → new_exception m
      ≡ record { msg = m; line = sscanf_d (c_str (drop (i + 2) m)); error = error_text m }
unfolding new_exception
new_exception-found m i e = rw (e, new_exception)

-- the message of an error whose excerpt in the chunk's name is without "]:"
module _ (source err : Bytes) (line : ℕ) (hs : IsScript source)
    (hf : find (codes "]:") (excerpt source 43) ≡ none) where
  found : find (codes "]:") (addinfo source line err) ≡ some (suc (length (opening source)))
  found = rw (addinfo-script source err line hs) (
      find-append 93 58 (opening source) (decimal line ++ (b':' ∷ b' ' ∷ err)) 34 (omega arith)
        (opening-find source hf))

  line_found :
      sscanf_d (c_str (drop (suc (length (opening source)) + 2) (addinfo source line err)))
      ≡ some (pos line)
  line_found =
      rw
        (
          addinfo-script source err line hs,
          drop_three (opening source) (decimal line ++ (b':' ∷ b' ' ∷ err)) 93 58 34,
        )
        (sscanf_d-decimal line (b' ' ∷ err))

  parsed : new_exception (addinfo source line err) ≡ record {
    msg = addinfo source line err;
    line = some (pos line);
    error = error_text (addinfo source line err);
  }
  parsed =
      new_exception-found (addinfo source line err) _ found
      ∙ ap
          (λ n. record {
            msg = addinfo source line err;
            line = n;
            error = error_text (addinfo source line err);
          })
          line_found

  text_found : rfind (codes ": ") err ≡ none → error_text (addinfo source line err) ≡ err
  text_found hr = rw (addinfo-script source err line hs) (
      rw append_assoc at
        (error_text-append (opening source ++ (b'"' ∷ b']' ∷ b':' ∷ decimal line)) err hr))

  text_cut :
      (first last : Bytes)
      → rfind (codes ": ") last ≡ none
      → err ≡ first ++ (b':' ∷ b' ' ∷ last)
      → error_text (addinfo source line err) ≡ last
  text_cut first last hr e =
      rw (addinfo-script source err line hs, e)
        (simp append_assoc at (
          error_text-append
            (opening source ++ (b'"' ∷ b']' ∷ b':' ∷ (decimal line ++ (b':' ∷ b' ' ∷ first)))) last
            hr))

-- For an error that `addinfo` reports in a script, whose excerpt in the message does not hold "]:" and
-- whose text does not hold ": ", the exception has the line and the text that Lua gave.
pub new_exception-addinfo :
    (source err : Bytes) (line : ℕ)
    → IsScript source
    → find (codes "]:") (excerpt source 43) ≡ none
    → rfind (codes ": ") err ≡ none
    → new_exception (addinfo source line err)
      ≡ record { msg = addinfo source line err; line = some (pos line); error = err }
new_exception-addinfo source err line hs hf hr =
    parsed source err line hs hf
    ∙ ap (λ t. record { msg = addinfo source line err; line = some (pos line); error = t })
        (text_found source err line hs hf hr)

-- For an error that `addinfo` reports in a script, whose excerpt in the message does not hold "]:"
-- but whose text does hold ": ", `error()` is only what follows the last ": ": all that stands
-- before it in Lua's text is lost, and the line is still right.
pub new_exception_cut :
    (source first last : Bytes) (line : ℕ)
    → IsScript source
    → find (codes "]:") (excerpt source 43) ≡ none
    → rfind (codes ": ") last ≡ none
    → ((new_exception (addinfo source line (first ++ (b':' ∷ b' ' ∷ last)))).error ≡ last)
      × ((new_exception (addinfo source line (first ++ (b':' ∷ b' ' ∷ last)))).line
          ≡ some (pos line))
new_exception_cut source first last line hs hf hr =
    let err = first ++ (b':' ∷ b' ' ∷ last) in
    let p = parsed source err line hs hf in
    (
      ap (λ (e : LuaException). e.error) p ∙ text_cut source err line hs hf first last hr refl,
      ap (λ (e : LuaException). e.line) p,
    )

sscanf_d_letter : (c : ℕ) (s : Bytes) → b'a' ≤ c → sscanf_d (c_str (c ∷ s)) ≡ none
unfolding sscanf_d c_str
sscanf_d_letter c s h = ground arith

-- the constructor at an occurrence of "]:" that a letter follows
no_line :
    (m before rest : Bytes) (z c : ℕ)
    → m ≡ before ++ (z ∷ b']' ∷ b':' ∷ c ∷ rest)
    → z ≢ b']'
    → find (codes "]:") (before ++ z ∷ []) ≡ none
    → b'a' ≤ c
    → (new_exception m).line ≡ none
no_line m before rest z c e hz hf hc =
    let at_i : find (codes "]:") m ≡ some (suc (length before)) =
      rw e (find-append 93 58 before (c ∷ rest) z hz hf) in
    ap (λ (x : LuaException). x.line) (new_exception-found m (suc (length before)) at_i)
    ∙ rw (e, drop_three before (c ∷ rest) 93 58 z) (sscanf_d_letter c rest hc)

decorated-find :
    (before : Bytes) (z : ℕ)
    → find (codes "]:") (before ++ z ∷ []) ≡ none
    → find (codes "]:") ((codes "[string \"" ++ before) ++ z ∷ []) ≡ none
unfolding find
decorated-find [] z h = ground (arith, h)
decorated-find (b ∷ before) z h = ground (arith, h)

-- Where the excerpt of the script holds "]:" itself, not straight behind another "]", and the byte
-- behind its first occurrence is 'a' or greater, as in "t[1]:go()", the constructor takes that
-- place for the end of the chunk's name and leaves `line_` uninitialised.
pub new_exception_no_line :
    (source before after err : Bytes) (z c line : ℕ)
    → IsScript source
    → excerpt source 43 ≡ before ++ (z ∷ b']' ∷ b':' ∷ c ∷ after)
    → z ≢ b']'
    → find (codes "]:") (before ++ z ∷ []) ≡ none
    → b'a' ≤ c
    → (new_exception (addinfo source line err)).line ≡ none
new_exception_no_line source before after err z c line hs he hz hf hc =
    let rest = after ++ (b'"' ∷ b']' ∷ b':' ∷ (decimal line ++ (b':' ∷ b' ' ∷ err))) in
    no_line (addinfo source line err) (codes "[string \"" ++ before) rest z c
      (rw (addinfo-script source err line hs, he) (simp append_assoc)) hz
      (decorated-find before z hf) hc
