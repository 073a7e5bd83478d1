-- ===== src/Tests/Search.antt =====
-- Plain searches.
use luascript.Prelude.{◌≡◌, refl, none, some}
use luascript.Prelude.Bytes.{codes, find}
use luascript.Core.Search.{lmemfind, lmemfind_loop, memchr}
use luascript.Core.Search.First.{lmemfind-find}
use luascript.Prelude.Bytes.{bytes_eq}

lmemfind-find_example : lmemfind (codes "a+a+b") (codes "a+b") ≡ find (codes "a+b") (codes "a+a+b")
lmemfind-find_example = lmemfind-find (codes "a+a+b") (codes "a+b")

second_try : lmemfind (codes "a+a+b") (codes "a+b") ≡ some 2
unfolding lmemfind lmemfind_loop memchr bytes_eq
second_try = refl

longer : lmemfind (codes "a+") (codes "a+b") ≡ none
unfolding lmemfind
longer = refl
