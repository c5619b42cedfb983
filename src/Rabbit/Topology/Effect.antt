-- ===== src/Rabbit/Topology/Effect.antt =====
-- What an operation that succeeds has recorded and asked of the broker, composed step by step.
use msa_core.Prelude.{
  ℕ, ◌+◌, ◌≡◌, refl, sym, ap, ◌∙◌, String, Option, none, some, List, [], ◌∷◌, ◌++◌,
}
use mathlib.Core.List.{append_assoc, append-nil}
use msa_core.Prelude.Result.{Error}
use msa_core.Rabbit.Topology.{
  Call, Client, opened, Broker, World, M, ◌>>◌, within, ensure_channel, call, on_client, wrapped,
}

abbrev pub IsOpen : Broker → Type 0
IsOpen b = (n : ℕ) → b.channel n ≡ opened

-- The success of `m` changes the recorded topology by `f`, and has made the calls `cs`.
pub record Effect (m : M) (f : Client → Client) (cs : List Call) : Type 0 where
  pub at : (w w' : World) → m w ≡ (none, w') → (w'.client ≡ f w.client) × (w'.calls ≡ w.calls ++ cs)

pub >>-eq-none :
    (m n : M) (w w'' : World)
    → (m >> n) w ≡ (none, w'')
    → (w' : World) × (m w ≡ (none, w')) × (n w' ≡ (none, w''))
>>-eq-none m n w w'' h = go (m w) refl h
  where
    go :
        (r : Option Error × World)
        → m w ≡ r
        → (elim r.0 as (λ _. Option Error × World) [ none ↦ n r.1 | some x ↦ (some x, r.1) ])
          ≡ (none, w'')
        → (w' : World) × (m w ≡ (none, w')) × (n w' ≡ (none, w''))
    go (none, w') e k = (w', e, k)
    go (some x, w') e k = cc

pub Effect->> :
    {m n : M} {f g : Client → Client} {cs ds : List Call}
    → Effect m f cs
    → Effect n g ds
    → Effect (m >> n) (λ c. g (f c)) (cs ++ ds)
Effect->> {m} {n} {f} {g} {cs} {ds} em en = record {
  at = λ w w'' h.
      let (w', first, second) = >>-eq-none m n w w'' h in
      let (client, calls) = em.at w w' first in
      let (client', calls') = en.at w' w'' second in
      (client' ∙ ap g client, calls' ∙ (ap (λ l. l ++ ds) calls ∙ append_assoc w.calls cs ds));
}

pub Effect-within :
    {m : M} {f : Client → Client} {cs : List Call} (s : String)
    → Effect m f cs
    → Effect (within s m) f cs
Effect-within {m} s e = record { at = λ w w' h. e.at w w' (go (m w) h) }
  where
    go :
        (r : Option Error × World) {w' : World}
        → Path (Option Error × World) (wrapped s r.0, r.1) (none, w')
        → r ≡ (none, w')
    go (none, v) h = h
    go (some x, v) h = cc

pub Effect-on_client : (f : Client → Client) → Effect (on_client f) f []
Effect-on_client f = record {
  at = λ w w' h. (
    sym (ap (λ (r : Option Error × World). r.1.client) h),
    sym (ap (λ (r : Option Error × World). r.1.calls) h) ∙ sym (append-nil w.calls),
  );
}

pub Effect-call : (b : Broker) (c : Call) → Effect (call b c) (λ k. k) (c ∷ [])
unfolding call
Effect-call b c = record {
  at = λ w w' h. (
    sym (ap (λ (r : Option Error × World). r.1.client) h),
    sym (ap (λ (r : Option Error × World). r.1.calls) h),
  );
}

module _ (b : Broker) (open_always : IsOpen b) where
  ensure_channel_open :
      (w : World) → ensure_channel b w ≡ (none, record w { attempts = w.attempts + 1 })
  unfolding ensure_channel
  ensure_channel_open w = rw (open_always w.attempts, ensure_channel)

  pub Effect-ensure_channel : Effect (ensure_channel b) (λ k. k) []
  Effect-ensure_channel = record {
    at = λ w w' h.
        let e = sym h ∙ ensure_channel_open w in
        (
          ap (λ (r : Option Error × World). r.1.client) e,
          ap (λ (r : Option Error × World). r.1.calls) e ∙ sym (append-nil w.calls),
        );
  }

  -- an operation that makes one call on the channel
  pub Effect-single :
      (s : String) (c : Call) → Effect (ensure_channel b >> within s (call b c)) (λ k. k) (c ∷ [])
  Effect-single s c = Effect->> Effect-ensure_channel (Effect-within s (Effect-call b c))

  pub Effect-recorded :
      (f : Client → Client) (s : String) (c : Call)
      → Effect (ensure_channel b >> on_client f >> within s (call b c)) f (c ∷ [])
  Effect-recorded f s c =
      Effect->> (Effect->> Effect-ensure_channel (Effect-on_client f))
        (Effect-within s (Effect-call b c))
