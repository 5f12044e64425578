-- ===== src/Sdk/Cached.antt =====
-- The Go client's comparison with the last body: what it saves, and where it loses a change.
use feature_flags_control_pl.Shared.{
  ◌≡◌, refl, sym, ap, ◌∙◌, Bool, Bool-cases, inl, inr, true, false, Option, none, some, List, [],
  ◌∷◌, ◌++◌, Str, str_eq, str_eq_iff, str_eq_refl, if◌then◌else◌,
}
use feature_flags_control_pl.Sdk.Polling.{Client, decoded, take_body, fetch_flags}

module _ {F : Type 0} (decode_flags : Str → Option F) where
  -- Rounds of polling; none stands for a request that failed.
  pub poll : Client F → List (Option Str) → Client F
  poll c [] = c
  poll c (body ∷ bodies) = poll (fetch_flags decode_flags c body) bodies

  or_kept : F → Option F → F
  or_kept f none = f
  or_kept f (some f') = f'

  -- The flags of the last body that can be decoded, without any comparison.
  pub latest : F → List (Option Str) → F
  latest f [] = f
  latest f (none ∷ bodies) = latest f bodies
  latest f (some body ∷ bodies) = latest (or_kept f (decode_flags body)) bodies

  abbrev pub Current : Client F → Type 0
  Current c = (f : F) → decode_flags c.last_config ≡ some f → c.flags ≡ f

  decoded-flags :
      (c : Client F) (o : Option F) → (decoded decode_flags c o).flags ≡ or_kept c.flags o
  unfolding decoded or_kept
  decoded-flags c none = refl
  decoded-flags c (some f) = refl

  decoded-last_config :
      (c : Client F) (o : Option F) → (decoded decode_flags c o).last_config ≡ c.last_config
  unfolding decoded
  decoded-last_config c none = refl
  decoded-last_config c (some f) = refl

  told-rest :
      (b : Bool) (c : Client F) (updates : List F)
      → let told = if b then record c { updates = updates } else c in
        (told.flags ≡ c.flags) × (told.last_config ≡ c.last_config)
  told-rest true c updates = (refl, refl)
  told-rest false c updates = (refl, refl)

  take_body-changed :
      (c : Client F) (body : Str)
      → str_eq body c.last_config ≡ false
      → ((take_body decode_flags c body).flags ≡ or_kept c.flags (decode_flags body))
        × ((take_body decode_flags c body).last_config ≡ body)
  unfolding take_body
  take_body-changed c body changed =
      let seen = record c { last_config = body } in
      let flags = decoded-flags seen (decode_flags body) in
      let last_config = decoded-last_config seen (decode_flags body) in
      let x = decoded decode_flags seen (decode_flags body) in
      let (told_flags, told_config) = told-rest c.has_callback x (x.updates ++ x.flags ∷ []) in
      rw changed (told_flags ∙ flags, told_config ∙ last_config)

  take_body-same :
      (c : Client F) (body : Str)
      → str_eq body c.last_config ≡ true
      → take_body decode_flags c body ≡ c
  unfolding take_body
  take_body-same c body same = rw same refl

  kept_current :
      (c : Client F) (o : Option F)
      → ((f : F) → o ≡ some f → c.flags ≡ f)
      → c.flags ≡ or_kept c.flags o
  unfolding or_kept
  kept_current c none current = refl
  kept_current c (some f) current = current f refl

  take_body-flags :
      (c : Client F) (body : Str)
      → Current c
      → ((take_body decode_flags c body).flags ≡ or_kept c.flags (decode_flags body))
        × ((take_body decode_flags c body).last_config ≡ body)
  take_body-flags c body current = elim (Bool-cases (str_eq body c.last_config)) [
    | inl same ↦
        let kept = take_body-same c body same in
        let e = (str_eq_iff body c.last_config).0 same in
        (
          ap (λ x. x.flags) kept
              ∙ kept_current c (decode_flags body) (λ f d. current f (ap decode_flags (sym e) ∙ d)),
          ap (λ x. x.last_config) kept ∙ sym e,
        )
    | inr changed ↦ take_body-changed c body changed
  ]

  or_kept-some : (f g : F) (o : Option F) → o ≡ some g → or_kept f o ≡ g
  unfolding or_kept
  or_kept-some f g o e = rw e refl

  take_body-Current :
      (c : Client F) (body : Str) → Current c → Current (take_body decode_flags c body)
  take_body-Current c body current f d =
      let (flags, last_config) = take_body-flags c body current in
      flags ∙ or_kept-some c.flags f (decode_flags body) (sym (ap decode_flags last_config) ∙ d)

  -- A client whose flags are those of its last body has, after any rounds of polling, the flags of the
  -- last fetched body that can be decoded, as if no body had been compared with the one before; and
  -- again its flags are those of its last body.
  pub poll-latest :
      (c : Client F) (bodies : List (Option Str))
      → Current c
      → ((poll c bodies).flags ≡ latest c.flags bodies) × Current (poll c bodies)
  unfolding poll latest fetch_flags
  poll-latest c [] current = (refl, current)
  poll-latest c (none ∷ bodies) current = poll-latest c bodies current
  poll-latest c (some body ∷ bodies) current =
      let (flags, still) =
        poll-latest (take_body decode_flags c body) bodies (take_body-Current c body current) in
      (flags ∙ ap (λ f. latest f bodies) (take_body-flags c body current).0, still)

  -- After an update of the event stream whose text is the very body that the fetch returns, the client
  -- keeps the flags that it had and calls nobody, since it has noted the text as its last body before.
  pub fetch_flags-announced :
      (c : Client F) (body : Str)
      → (fetch_flags decode_flags (record c { last_config = body }) (some body)).flags ≡ c.flags
        × ((fetch_flags decode_flags (record c { last_config = body }) (some body)).updates
            ≡ c.updates)
  unfolding fetch_flags
  fetch_flags-announced c body =
      let same = take_body-same (record c { last_config = body }) body (str_eq_refl body) in
      (ap (λ x. x.flags) same, ap (λ x. x.updates) same)
