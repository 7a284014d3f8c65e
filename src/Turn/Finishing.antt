-- ===== src/Turn/Finishing.antt =====
-- `_finish`: what is written before the hooks are called.
use tantra.Prelude.{◌≡◌, ap, sym, ◌∙◌, some, List, [], ◌∷◌, ◌++◌, arith, String}
use tantra.Prelude.Outcome.{Outcome, ok}
use tantra.Prelude.Stateful.{◌>>=◌, pure, bind-inverse}
use tantra.Events.{SessionEvent}
use tantra.Turn.{Act, Engine, append}
use tantra.Turn.Setup.{Hook, Setup}
use tantra.Turn.Drive.{Sampler, resolve, call_hooks, keep, finish}

module _ (setup : Setup) (sampler : Sampler) (turn_id : String) where
  call_hooks-same :
      (f : Hook → Engine → Outcome (Unit {0})) (hooks : List Hook) (s t : Engine)
      → call_hooks setup sampler turn_id f hooks s ≡ (ok tt, t)
      → t ≡ s
  call_hooks-same f [] s t h = sym (ap (λ (x : Outcome (Unit {0}) × Engine). x.1) h)
  call_hooks-same f (hook ∷ hooks) s t h =
      let (_, mid, q, r) =
        bind-inverse (resolve setup sampler turn_id (f hook))
          (λ _. call_hooks setup sampler turn_id f hooks) s t tt h in
      call_hooks-same f hooks mid t r ∙ sym (ap (λ (x : Outcome (Unit {0}) × Engine). x.1) q)

  pub finish-inverse :
      (e d : SessionEvent) (s t : Engine)
      → finish setup sampler turn_id e s ≡ (ok d, t)
      → (e ≡ d) × (t.log ≡ s.log ++ e ∷ []) × (t.terminal ≡ some e)
  unfolding finish append
  finish-inverse e d s t h =
      let after : Act (Unit {0}) =
        call_hooks setup sampler turn_id (λ hook engine. hook.after_turn engine e) setup.hooks in
      let (_, one, p, q) =
        bind-inverse (append setup.compacts (e ∷ []))
          (λ _. keep setup sampler turn_id e >>= λ _. after >>= λ _. pure e) s t d h in
      let (_, two, u, v) =
        bind-inverse (keep setup sampler turn_id e) (λ _. after >>= λ _. pure e) one t d q in
      let (_, three, w, x) = bind-inverse after (λ _. pure e) two t d v in
      let same : three ≡ two =
        call_hooks-same (λ hook engine. hook.after_turn engine e) setup.hooks two three w in
      let end : t ≡ three = sym (ap (λ (y : Outcome SessionEvent × Engine). y.1) x) in
      let back : t ≡ two = end ∙ same in
      (
        ground arith,
        ap (λ (y : Engine). y.log) back
            ∙ (sym (ap (λ (y : Outcome (Unit {0}) × Engine). y.1.log) u)
                ∙ sym (ap (λ (y : Outcome (Unit {0}) × Engine). y.1.log) p)),
        ap (λ (y : Engine). y.terminal) back
            ∙ sym (ap (λ (y : Outcome (Unit {0}) × Engine). y.1.terminal) u),
      )
