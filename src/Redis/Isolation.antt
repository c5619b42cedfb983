-- ===== src/Redis/Isolation.antt =====
-- Clients with different prefixes on one server.
pub mod Effects
use Prim.Native.Char.{Char}
use Prim.Native.String.{[], ◌∷◌}
use text.Mathlib.TextLemmas.{append_assoc, cons-append, nil-append}
use msa_core.Prelude.{String, ◌≡◌, ◌≢◌, refl, ap, sym, ◌∙◌, eq_iff, arith}
use mathlib.Core.List.{List, [], ◌∷◌}
use msa_core.Prelude.Result.{Result}
use msa_core.Prelude.Text.{◌+++◌, split}
use msa_core.Prelude.Text.Split.{Lacks, split-append}
use msa_core.Redis.{new_redis_client, Server, full_key}
use msa_core.Redis.Methods.{Method, effects}
use msa_core.Redis.Isolation.Effects.{Keyed, Apart, effects-other}

first_part : List String → String
first_part [] = ""
first_part (w ∷ ws) = w

abbrev colon : Char
colon = ":"

colon_append : (p x : String) → p +++ ":" +++ x ≡ p +++ (colon ∷ x)
colon_append p x =
    append_assoc p ":" x
    ∙ ap (λ (t : String). p +++ t)
        (cons-append colon "" x ∙ ap (λ (t : String). colon ∷ t) (nil-append x))

-- prefixes without a colon: the text before the first colon tells them apart
prefixes_apart :
    (p q x y : String) → Lacks b':' p → Lacks b':' q → p +++ ":" +++ x ≡ q +++ ":" +++ y → p ≡ q
unfolding first_part
prefixes_apart p q x y lp lq e =
    let same : p ∷ split b':' x ≡ q ∷ split b':' y =
      sym (split-append colon p x lp)
      ∙ ap (split b':') (sym (colon_append p x) ∙ e ∙ colon_append q y)
      ∙ split-append colon q y lq in
    ap first_part same

prefix_of : (env address p : String) → p ≢ "" → (new_redis_client env address p).prefix ≡ p +++ ":"
unfolding new_redis_client
prefix_of env address p ne = ground (arith, eq_iff p "")

new_redis_client-Apart :
    (env address env' address' p q : String)
    → p ≢ ""
    → q ≢ ""
    → p ≢ q
    → Lacks b':' p
    → Lacks b':' q
    → Apart (new_redis_client env address p) (new_redis_client env' address' q)
new_redis_client-Apart env address env' address' p q np nq ne lp lq x y e = ne (
    prefixes_apart p q x y lp lq (
      ap (λ (t : String). t +++ x) (sym (prefix_of env address p np))
      ∙ e
      ∙ ap (λ (t : String). t +++ y) (prefix_of env' address' q nq)))

-- Two clients that NewRedisClient makes with different prefixes, neither empty and neither with a
-- colon in it, are isolated on a server whose commands change nothing at keys that they do not name:
-- after any sequence of calls by the one (of all methods but Close), with any outcomes and whatever
-- the encoder does, the server holds the same as before under each key of the other.
pub effects-isolated :
    {V F S W : Type 0} (srv : Server V F S) (view : S → String → W)
    → Keyed srv view
    → (env address env' address' p q : String) → p ≢ ""
    → q ≢ ""
    → p ≢ q
    → Lacks b':' p
    → Lacks b':' q
    → (marshal : V → Result String) (ms : List (Method V F)) (s : S) (key : String)
    → view
        (effects srv marshal (new_redis_client env' address' q) ms s)
        (full_key (new_redis_client env address p) key)
      ≡ view s (full_key (new_redis_client env address p) key)
effects-isolated srv view keyed env address env' address' p q np nq ne lp lq marshal ms s key =
    effects-other srv view keyed (new_redis_client env address p) (new_redis_client env' address' q)
      marshal (new_redis_client-Apart env address env' address' p q np nq ne lp lq) key ms s
