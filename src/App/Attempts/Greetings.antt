-- ===== src/App/Attempts/Greetings.antt =====
-- What stays true while the attempts to connect go on.
use p_and_pp.Base.{
  ℕ, ◌+◌, ◌≤◌, ◌<◌, ◌≡◌, ◌≢◌, refl, ap, ◌∙◌, subst, String, List, [], ◌∷◌, ◌++◌, Option, none, some,
  arith, length, length-append, All, All-append, ◌⊎◌, inl, inr,
}
use p_and_pp.Base.Results.{Result, ok}
use p_and_pp.Base.Texts.{Text}
use p_and_pp.Ice.Connection.{Connection, Bytes}
use p_and_pp.Ice.Agent.{Agent, connect}
use p_and_pp.App.Attempts.{
  Attempt, sleeping, unconnected, connected, over, Race, greeting, Step, finds_none, finds_one,
  connects, fails, greets,
}
use p_and_pp.App.Attempts.Counting.{
  steps_left, finished, total, total-at, Has, Has-at, length-at, unfinished,
}

module _ {C R : Type 0} (resolve : Text → Result Text) (send_to : C → Bytes → Text → Result ℕ)
    (bytes : String → Bytes) (a : Agent C) (conn : Connection C)
    (ready : (x : Option (Connection C))
      → connect resolve (record a { connection = x })
        ≡ (record a { connection = some conn }, ok conn))
    (n : ℕ) where
  pub record Inv (s : Race C R) : Type 0 where
    pub agent : (x : Option (Connection C)) × (s.app.ice_agent ≡ some (record a { connection = x }))
    pub has : All (Has conn) s.attempts
    pub many : length s.attempts ≡ n
    pub greetings : All (λ x. x ≡ greeting send_to bytes conn) s.acts
    pub count : length s.acts ≤ total finished s.attempts
    pub kept :
        ((s.app.ice_conn ≡ none) × (total finished s.attempts ≡ 0))
        ⊎ ((s.app.ice_conn ≡ some conn) × (1 ≤ length s.acts))

  -- One attempt goes on from `t` to `u`.
  moved :
      (s : Race C R) (xs ys : List (Attempt C)) (t u : Attempt C)
      → s.attempts ≡ xs ++ t ∷ ys
      → Has conn u
      → Inv s
      → Has conn t
        × All (Has conn) (xs ++ u ∷ ys)
        × (length (xs ++ u ∷ ys) ≡ n)
        × (finished t + total finished (xs ++ u ∷ ys) ≡ finished u + total finished s.attempts)
        × (steps_left t + total steps_left (xs ++ u ∷ ys)
            ≡ steps_left u + total steps_left s.attempts)
  moved s xs ys t u q k i =
      let (own, all) = Has-at conn xs ys t u (subst (All (Has conn)) q i.has) k in
      (
        own,
        all,
        omega (arith, length-at xs ys t u, ap length q, i.many),
        counted finished,
        counted steps_left,
      )
    where
      counted : (f : Attempt C → ℕ) → f t + total f (xs ++ u ∷ ys) ≡ f u + total f s.attempts
      counted f = omega (arith, total-at f xs ys t, total-at f xs ys u, ap (total f) q)

  -- The connections of the attempts are all the same one, and each step brings the end nearer.
  pub advance :
      (s u : Race C R)
      → Step resolve send_to bytes s u
      → Inv s
      → Inv u × (total steps_left u.attempts < total steps_left s.attempts)
  advance s u (finds_none xs ys q e) i =
      let (own, all, long, f, r) = moved s xs ys sleeping unconnected q tt i in
      (
        record {
          agent = i.agent;
          has = all;
          many = long;
          greetings = i.greetings;
          count = omega (arith, f, i.count);
          kept = elim i.kept [ inl k ↦ inl (k.0, omega (arith, f, k.1)) | inr k ↦ inr k ];
        },
        omega (arith, r),
      )
  advance s u (finds_one xs ys k q e) i =
      let (own, all, long, f, r) = moved s xs ys sleeping over q tt i in
      (
        record {
          agent = i.agent;
          has = all;
          many = long;
          greetings = i.greetings;
          count = omega (arith, f, i.count);
          kept = elim i.kept [ inl k ↦ absurd (cc (k.0, e)) | inr k ↦ inr k ];
        },
        omega (arith, r),
      )
  advance s u (connects xs ys b b' k q e answer) i =
      let (x, held) = i.agent in
      let same : b ≡ record a { connection = x } = cc (e, held) in
      let got : connect resolve b ≡ (record a { connection = some conn }, ok conn) =
        ap (connect resolve) same ∙ ready x in
      let mine : k ≡ conn = cc (answer, got) in
      let (own, all, long, f, r) = moved s xs ys unconnected (connected k) q mine i in
      (
        record {
          agent = (some conn, cc (answer, got));
          has = all;
          many = long;
          greetings = i.greetings;
          count = omega (arith, f, i.count);
          kept = elim i.kept [ inl k ↦ inl (k.0, omega (arith, f, k.1)) | inr k ↦ inr k ];
        },
        omega (arith, r),
      )
  advance s u (fails xs ys b b' m q e answer) i =
      let (x, held) = i.agent in
      let same : b ≡ record a { connection = x } = cc (e, held) in
      let got : connect resolve b ≡ (record a { connection = some conn }, ok conn) =
        ap (connect resolve) same ∙ ready x in
      absurd (cc (answer, got))
  advance s u (greets xs ys k q) i =
      let (own, all, long, f, r) = moved s xs ys (connected k) over q tt i in
      let one_more = length-append s.acts (greeting send_to bytes k ∷ []) in
      (
        record {
          agent = i.agent;
          has = all;
          many = long;
          greetings =
              All-append (λ x. x ≡ greeting send_to bytes conn) s.acts
                (greeting send_to bytes k ∷ []) i.greetings (ap (greeting send_to bytes) own, tt);
          count = omega (arith, f, i.count, one_more);
          kept = inr (ap (λ c. some c) own, omega (arith, one_more));
        },
        omega (arith, r),
      )

  -- While some attempt is not over, there is a step.
  pub moves :
      (s : Race C R)
      → Inv s
      → (total steps_left s.attempts ≡ 0) ⊎ ((u : Race C R) × Step resolve send_to bytes s u)
  moves s i = elim (unfinished s.attempts) [
    | inl e ↦ inl e
    | inr (xs, ys, t, q, open_one) ↦ inr (go xs ys t q open_one)
  ]
    where
      go :
          (xs ys : List (Attempt C)) (t : Attempt C)
          → s.attempts ≡ xs ++ t ∷ ys
          → steps_left t ≢ 0
          → (u : Race C R) × Step resolve send_to bytes s u
      go xs ys sleeping q m = elim i.kept [
        | inl k ↦ (record s { attempts = xs ++ unconnected ∷ ys }, finds_none xs ys q k.0)
        | inr k ↦ (record s { attempts = xs ++ over ∷ ys }, finds_one xs ys conn q k.0)
      ]
      go xs ys unconnected q m = (
        record s {
          app = record s.app { ice_agent = some (record a { connection = some conn }) };
          attempts = xs ++ connected conn ∷ ys;
        },
        connects xs ys (record a { connection = i.agent.0 }) (record a { connection = some conn })
            conn q i.agent.1 (ready i.agent.0),
      )
      go xs ys (connected k) q m = (
        record s {
          app = record s.app { ice_conn = some k };
          attempts = xs ++ over ∷ ys;
          acts = s.acts ++ greeting send_to bytes k ∷ [];
        },
        greets xs ys k q,
      )
      go xs ys over q m = absurd (m refl)
