-- ===== src/Redis/Sending.antt =====
-- `subscribe` and `unsubscribe` return, and what went over the wire by then.
use chat_server_c.Base.Decimal.{show_int}
use chat_server_c.Base.Int.{ℤ}
use chat_server_c.Base.Bytes.{codes, Bytes}
use chat_server_c.Redis.{
  unsubscribe, subscribe, send_command, written_all, written_part, write_failed, write_out, Write,
  Hiredis,
}
use chat_server_c.Base.{
  Bool-cases, append-nil, ◌≢◌, ◌+◌, inr, sym, inl, arith, append_assoc, ◌⊎◌, ◌∙◌, ◌<◌, ap, ◌++◌,
  length, ◌≡◌, ℕ, List, Bool, refl, [], ◌∷◌, some, true, false, zero, suc,
}

module _ ⦃H : Hiredis⦄ where
  open H use {
    Context, State, wire, unsent, encoded, interrupts, redis_buffer_write, redis_append_command,
  }

  -- How the loop ends that writes the buffer out.
  data Written (c : Context) (st : State) : Bool → State → Type 0 where
    all_out :
        (st' : State)
        → wire c st' ≡ wire c st ++ unsent c st
        → unsent c st' ≡ []
        → Written c st true st'
    stopped :
        (went : Bytes) (st' : State)
        → wire c st' ≡ wire c st ++ went
        → unsent c st ≡ went ++ unsent c st'
        → unsent c st' ≢ []
        → Written c st false st'

  -- The same for a command.
  pub data Sent (c : Context) (words : List Bytes) (st : State) : Bool → State → Type 0 where
    complete :
        (st' : State)
        → wire c st' ≡ wire c st ++ unsent c st ++ encoded words
        → unsent c st' ≡ []
        → Sent c words st true st'
    broken :
        (went : Bytes) (st' : State)
        → wire c st' ≡ wire c st ++ went
        → unsent c st ++ encoded words ≡ went ++ unsent c st'
        → unsent c st' ≢ []
        → Sent c words st false st'
    refused :
        (st' : State)
        → wire c st' ≡ wire c st
        → unsent c st' ≡ unsent c st
        → Sent c words st false st'

  Write-cases : (w : Write) → (w ≡ write_failed) ⊎ ((w ≡ written_part) ⊎ (w ≡ written_all))
  Write-cases write_failed = inl refl
  Write-cases written_part = inr (inl refl)
  Write-cases written_all = inr (inr refl)

  total :
      (c : Context) (st st1 : State) (part : Bytes)
      → unsent c st ≡ part ++ unsent c st1
      → wire c st1 ≡ wire c st ++ part
      → wire c st1 ++ unsent c st1 ≡ wire c st ++ unsent c st
  total c st st1 part u w =
      ap (λ s. s ++ unsent c st1) w
      ∙ append_assoc (wire c st) part (unsent c st1)
      ∙ ap (λ s. wire c st ++ s) (sym u)

  -- A part goes out, and the rest behind it.
  Written-part :
      (c : Context) (st st1 : State) (part : Bytes) (b : Bool) (st' : State)
      → unsent c st ≡ part ++ unsent c st1
      → wire c st1 ≡ wire c st ++ part
      → Written c st1 b st'
      → Written c st b st'
  Written-part c st st1 part b st' u w (all_out _ e n) = all_out st' (e ∙ total c st st1 part u w) n
  Written-part c st st1 part b st' u w (stopped went _ e v more) =
      stopped (part ++ went) st' (e ∙ ap (λ s. s ++ went) w ∙ append_assoc (wire c st) part went)
        (u ∙ ap (λ s. part ++ s) v ∙ sym (append_assoc part went (unsent c st'))) more

  write_out-Written :
      (rounds : ℕ) (c : Context) (st : State)
      → unsent c st ≢ []
      → length (unsent c st) + interrupts st < rounds
      → (b : Bool) × (st' : State) × (write_out rounds c st ≡ some (b, st')) × Written c st b st'
  unfolding write_out
  write_out-Written zero c st full h = absurd (omega (arith, h))
  write_out-Written (suc rounds) c st full h = elim (Write-cases (redis_buffer_write c st).0) [
    | inl failed ↦
        let (u, w) = H.write_fails c st failed in
        (
          false,
          (redis_buffer_write c st).1,
          rw failed refl,
          stopped [] _ (w ∙ sym (append-nil (wire c st))) (sym u) (λ e. full (sym u ∙ e)),
        )
    | inr (inl part) ↦
        let (s, u, w, more, less) = H.writes_part c st part in
        let st1 = (redis_buffer_write c st).1 in
        let (b, st', e, r) = write_out-Written rounds c st1 more (omega (arith, h, less)) in
        (b, st', rw part e, Written-part c st st1 s b st' u w r)
    | inr (inr all) ↦
        let (n, w) = H.writes_all c st all in
        (true, (redis_buffer_write c st).1, rw all refl, all_out _ w n)
  ]

  -- A command behind what is in the buffer already.
  Written-Sent :
      (c : Context) (words : List Bytes) (st st1 : State) (b : Bool) (st' : State)
      → wire c st1 ≡ wire c st
      → unsent c st1 ≡ unsent c st ++ encoded words
      → Written c st1 b st'
      → Sent c words st b st'
  Written-Sent c words st st1 b st' w u (all_out _ e n) =
      complete st'
        (e ∙ (λ i. w i ++ u i) ∙ sym (append_assoc (wire c st) (unsent c st) (encoded words))) n
  Written-Sent c words st st1 b st' w u (stopped went _ e v more) =
      broken went st' (e ∙ ap (λ s. s ++ went) w) (sym u ∙ v) more

  append_not_nil : (s t : Bytes) → t ≢ [] → s ++ t ≢ []
  append_not_nil [] t h e = h e
  append_not_nil (c ∷ s) t h e = cc e

  send_command-Sent :
      (c : Context) (words : List Bytes) (st : State)
      → (b : Bool) × (st' : State) × (send_command c words st ≡ some (b, st'))
        × Sent c words st b st'
  unfolding send_command
  send_command-Sent c words st = elim (Bool-cases (redis_append_command c words st).0) [
    | inl failed ↦
        let (w, u) = H.append_fails c words st failed in
        (false, (redis_append_command c words st).1, rw failed refl, refused _ w u)
    | inr fine ↦
        let (w, u) = H.append_adds c words st fine in
        let st1 = (redis_append_command c words st).1 in
        let full : unsent c st1 ≢ [] =
          λ e. append_not_nil (unsent c st) (encoded words) (H.encoded_bytes words) (sym u ∙ e) in
        let (b, st', e, r) =
          write_out-Written (suc (length (unsent c st1) + interrupts st1)) c st1 full
            (omega arith) in
        (b, st', rw fine e, Written-Sent c words st st1 b st' w u r)
  ]

  -- On a socket that blocks and whose writes signals interrupt a finite number of times, the
  -- loops of `Redis::subscribe` and `Redis::unsubscribe` end: with true if the whole command went
  -- over the wire behind what was in the buffer, which is empty then, and else with false, where
  -- the command was not taken and wire and buffer are as before, or a write failed, some of it
  -- all went over the wire, and the rest is in the buffer and not empty.
  pub subscribe-Sent :
      (c : Context) (channel : ℤ) (st : State)
      → ((b : Bool) × (st' : State) × (subscribe c channel st ≡ some (b, st'))
          × Sent c (codes "SUBSCRIBE" ∷ show_int channel ∷ []) st b st')
        × ((b : Bool) × (st' : State) × (unsubscribe c channel st ≡ some (b, st'))
            × Sent c (codes "UNSUBSCRIBE" ∷ show_int channel ∷ []) st b st')
  unfolding subscribe unsubscribe
  subscribe-Sent c channel st = (
    send_command-Sent c (codes "SUBSCRIBE" ∷ show_int channel ∷ []) st,
    send_command-Sent c (codes "UNSUBSCRIBE" ∷ show_int channel ∷ []) st,
  )
