-- ===== src/Trigger/Order.antt =====
-- What ManualTriggerClient.trigger sends, and in which order.
use Prim.Native.String.{◌∷◌ as ◌∷ₛ◌, [] as []ₛ, count}
use seat_surface_aoi.Prelude.{
  ℕ, ◌==◌, ◌≤◌, ◌≡◌, ◌≢◌, ap, ◌∙◌, sym, subst, Bool-cases, ◌↔◌, ◌⊎◌, inl, inr, refl, ◌&&◌, ◌||◌,
  not, String, Bool, true, false, List, [], ◌∷◌, str_append, eq_iff, arith, if◌then◌else◌,
}
use seat_surface_aoi.Prelude.Result.{Result, done, raised, done-inj}
use seat_surface_aoi.Protocol.Layout.{Codec}
use seat_surface_aoi.Trigger.{
  ManualTriggerConfig, ManualTriggerError, no_connection, ManualTriggerClient, is_sn_char,
  all_chars, validate_sn, command_bytes, expected_variants, read_expected, drain, Exchange, Sent,
  ask, talk, exchange, finished, submit, trigger,
}
use seat_surface_aoi.Trigger.Answer.{IsAnswered, answered}

-- A serial number that may be sent.
abbrev pub IsSn : String → ℕ → Type 0
IsSn s max_length = (s ≢ "") × (count s ≤ max_length) × (all_chars is_sn_char s ≡ true)

one_line :
    (s : String)
    → all_chars is_sn_char s ≡ true
    → all_chars (λ n. not (n == 13 || n == 10)) s ≡ true
unfolding all_chars is_sn_char
one_line []ₛ h = refl
one_line (c ∷ₛ s) h = ground (arith, h, one_line s)

-- The serial numbers that the client accepts are the texts without their outer spaces that are not
-- empty, not too long, and made of letters, digits, dashes, underscores and dots.
pub validate_sn_iff :
    (strip : String → String) (sn : String) (max_length : ℕ) (s : String)
    → (validate_sn strip sn max_length ≡ done s) ↔ ((strip sn ≡ s) × IsSn s max_length)
unfolding validate_sn
validate_sn_iff strip sn max_length s =
    let t = strip sn in
    let flat = one_line t in
    (λ h. ground (arith, h, eq_iff t ""), λ h. ground (arith, h, eq_iff t "", flat))

module _ ⦃k : Codec⦄ (config : ManualTriggerConfig) where
  abbrev pub start_line : List ℕ
  start_line = command_bytes config.start_command config.terminator

  abbrev pub sn_line : String → List ℕ
  sn_line sn = command_bytes (str_append config.sn_prefix (str_append " " sn)) config.terminator

  -- The controller confirmed the start, and the serial number.
  abbrev pub IsStarted : Exchange → Type 0
  IsStarted x = IsAnswered config.start_ack x.start_replies

  abbrev pub IsConfirmed : Exchange → Type 0
  IsConfirmed x = IsAnswered config.sn_ack x.sn_replies

  -- Nothing was sent, or the start, or the start and, once that was confirmed, the serial number.
  abbrev pub IsSentInOrder : String → Exchange → List (List ℕ) → Type 0
  IsSentInOrder sn x lines =
      (lines ≡ [])
      ⊎ ((lines ≡ start_line ∷ []) ⊎ ((lines ≡ start_line ∷ sn_line sn ∷ []) × IsStarted x))

  ask-cases :
      (line : List ℕ) (sent : Bool) (reply : Result ManualTriggerError (Unit {0})) (later : Sent)
      → ((ask line sent reply later).0 ≡ [])
        ⊎ (((ask line sent reply later).0 ≡ line ∷ [])
            ⊎ (((ask line sent reply later).0 ≡ line ∷ later.0) × (reply ≡ done tt)))
  unfolding ask
  ask-cases line false reply later = inl refl
  ask-cases line true (raised e) later = inr (inl refl)
  ask-cases line true (done tt) later = inr (inr (refl, refl))

  ask-done :
      (line : List ℕ) (sent : Bool) (reply : Result ManualTriggerError (Unit {0})) (later : Sent)
      → (ask line sent reply later).1 ≡ done tt
      → ((ask line sent reply later).0 ≡ line ∷ later.0) × (reply ≡ done tt) × (later.1 ≡ done tt)
  unfolding ask
  ask-done line false reply later h = cc
  ask-done line true (raised e) later h = cc
  ask-done line true (done tt) later h = (refl, refl, h)

  talk-IsSentInOrder :
      (sn : String) (x : Exchange) (drained : Result ManualTriggerError Bool)
      → IsSentInOrder sn x (talk config sn x drained).0
  unfolding talk
  talk-IsSentInOrder sn x (raised e) = inl refl
  talk-IsSentInOrder sn x (done connected) =
      let reply = read_expected (expected_variants config.start_ack) [] x.start_replies in
      let second =
        ask (sn_line sn) x.sn_is_sent
          (read_expected (expected_variants config.sn_ack) [] x.sn_replies) ([], done tt) in
      let inner =
        ask-cases (sn_line sn) x.sn_is_sent
          (read_expected (expected_variants config.sn_ack) [] x.sn_replies) ([], done tt) in
      elim (ask-cases start_line (connected && x.start_is_sent) reply second) [
        | inl nothing_sent ↦ inl nothing_sent
        | inr (inl refused) ↦ inr (inl refused)
        | inr (inr (lines, started)) ↦ elim inner [
          | inl none_more ↦ inr (inl (lines ∙ ap (λ l. start_line ∷ l) none_more))
          | inr (inl one_more) ↦ inr (
              inr (
                lines ∙ ap (λ l. start_line ∷ l) one_more,
                answered config.start_ack x.start_replies started,
              ))
          | inr (inr (one_more, confirmed)) ↦ inr (
              inr (
                lines ∙ ap (λ l. start_line ∷ l) one_more,
                answered config.start_ack x.start_replies started,
              ))
        ]
      ]

  talk-done :
      (sn : String) (x : Exchange) (drained : Result ManualTriggerError Bool)
      → (talk config sn x drained).1 ≡ done tt
      → ((talk config sn x drained).0 ≡ start_line ∷ sn_line sn ∷ []) × IsStarted x × IsConfirmed x
  unfolding talk
  talk-done sn x (raised e) h = cc
  talk-done sn x (done connected) h =
      let reply = read_expected (expected_variants config.start_ack) [] x.start_replies in
      let answer = read_expected (expected_variants config.sn_ack) [] x.sn_replies in
      let second = ask (sn_line sn) x.sn_is_sent answer ([], done tt) in
      let (lines, started, inner) =
        ask-done start_line (connected && x.start_is_sent) reply second h in
      let (more, confirmed, last) = ask-done (sn_line sn) x.sn_is_sent answer ([], done tt) inner in
      (
        lines ∙ ap (λ l. start_line ∷ l) more,
        answered config.start_ack x.start_replies started,
        answered config.sn_ack x.sn_replies confirmed,
      )

  exchange-IsSentInOrder :
      (client : ManualTriggerClient) (sn : String) (x : Exchange)
      → IsSentInOrder sn x (exchange config client sn x).0
  unfolding exchange
  exchange-IsSentInOrder client sn x = elim (Bool-cases (client.is_connected || x.connects)) [
    | inl there ↦ rw there (talk-IsSentInOrder sn x (drain x.stale))
    | inr missing ↦ rw missing (inl refl)
  ]

  exchange-done :
      (client : ManualTriggerClient) (sn : String) (x : Exchange)
      → (exchange config client sn x).1 ≡ done tt
      → ((exchange config client sn x).0 ≡ start_line ∷ sn_line sn ∷ [])
        × IsStarted x
        × IsConfirmed x
  unfolding exchange
  exchange-done client sn x h = elim (Bool-cases (client.is_connected || x.connects)) [
    | inl there ↦ talked (client.is_connected || x.connects) there h
    | inr missing ↦ ground (arith, missing, h)
  ]
    where
      talked :
          (b : Bool)
          → b ≡ true
          → (if b then talk config sn x (drain x.stale) else ([], raised no_connection)).1 ≡ done tt
          → ((if b then talk config sn x (drain x.stale) else ([], raised no_connection)).0
              ≡ start_line ∷ sn_line sn ∷ [])
            × IsStarted x
            × IsConfirmed x
      talked true e g = talk-done sn x (drain x.stale) g
      talked false e g = cc

  -- However the controller answers, the client sends nothing, or the start, or the start and then the
  -- serial number; and it sends the serial number only after the bytes that it received began with
  -- some that hold the expected answer to the start: as configured, with its line ends written out, or
  -- without them at its end.
  pub trigger-IsSentInOrder :
      (strip : String → String) (client : ManualTriggerClient) (x : Exchange) (sn : String)
      → IsSentInOrder (strip sn) x (trigger strip config client x sn).1
  unfolding trigger submit
  trigger-IsSentInOrder strip client x sn =
      checked (validate_sn strip sn config.max_sn_length)
        (λ s h. ((validate_sn_iff strip sn config.max_sn_length s).0 h).0)
    where
      checked :
          (m : Result ManualTriggerError String)
          → ((s : String) → m ≡ done s → strip sn ≡ s)
          → IsSentInOrder (strip sn) x (submit config client x m).1
      checked (raised e) same = inl refl
      checked (done s) same =
          subst (λ t. IsSentInOrder t x (exchange config client s x).0) (sym (same s refl))
            (exchange-IsSentInOrder client s x)

  -- A trigger that succeeds was for a serial number that may be sent; both lines were sent, in this
  -- order, and the bytes that were received after each of them hold the expected answer to it: as
  -- configured, with its line ends written out, or without them at its end.
  pub trigger-IsConfirmed :
      (strip : String → String) (client : ManualTriggerClient) (x : Exchange) (sn s : String)
      → (trigger strip config client x sn).2 ≡ done s
      → IsSn s config.max_sn_length
        × ((trigger strip config client x sn).1 ≡ start_line ∷ sn_line s ∷ [])
        × IsStarted x
        × IsConfirmed x
  unfolding trigger submit finished
  trigger-IsConfirmed strip client x sn s h =
      checked (validate_sn strip sn config.max_sn_length)
        (λ s h. ((validate_sn_iff strip sn config.max_sn_length s).0 h).1) h
    where
      ended :
          (t : String) (r : Result ManualTriggerError (Unit {0}))
          → finished t r ≡ done s
          → (t ≡ s) × (r ≡ done tt)
      ended t (done tt) e = (done-inj e, refl)
      ended t (raised x) e = cc

      checked :
          (m : Result ManualTriggerError String)
          → ((s : String) → m ≡ done s → IsSn s config.max_sn_length)
          → (submit config client x m).2 ≡ done s
          → IsSn s config.max_sn_length
            × ((submit config client x m).1 ≡ start_line ∷ sn_line s ∷ [])
            × IsStarted x
            × IsConfirmed x
      checked (raised e) valid g = cc
      checked (done t) valid g =
          let (same, ran) = ended t (exchange config client t x).1 g in
          let (lines, started, confirmed) = exchange-done client t x ran in
          (
            subst (λ t. IsSn t config.max_sn_length) same (valid t refl),
            lines ∙ ap (λ t. start_line ∷ sn_line t ∷ []) same,
            started,
            confirmed,
          )
