-- ===== src/System/Bridge/Delivery.antt =====
-- What `_send_ipc` of src/system/julius_bridge.py sends, `_handle_message` reads.
use julius_os.Prelude.{
  ℕ, zero, suc, ◌+◌, ◌≤◌, ◌≡◌, refl, ap, ap₂, ◌∙◌, Bool, true, false, Option, some, List, [], ◌∷◌,
  ◌++◌, length, take, drop, map, arith, Bool-cases, inl, inr,
}
use julius_os.Prelude.Text.{Text, text_eq, text_eq_refl}
use julius_os.System.Bytes.{
  Bytes, ljust, rstrip, IsTrimmed, length-ljust, rstrip-ljust, rstrip-padded, take-append,
  drop-append,
}
use julius_os.System.Bridge.{
  Call, Bridge, callbacks_of, register, ipc_message, send_ipc, subscribe, deliver, handle_message,
}

callbacks_of-register :
    (t : Text) (f : ℕ) (cs : List (Text × List ℕ))
    → callbacks_of t (register t f cs) ≡ callbacks_of t cs ++ f ∷ []
unfolding callbacks_of register
callbacks_of-register t f [] = rw (text_eq_refl t) refl
callbacks_of-register t f (c ∷ cs) = elim (Bool-cases (text_eq t c.0)) [
  | inl same ↦ ground arith
  | inr other ↦ let ih = callbacks_of-register t f cs in ground arith
]

module _ (topic payload : Bytes) (pid now : ℕ) (h : length topic ≤ 64)
    (k : length payload ≤ 8192) where
  topic_field : take 64 (ipc_message topic payload pid now) ≡ ljust 64 topic
  unfolding ipc_message
  topic_field = take-append (ljust 64 topic) _ 64 (length-ljust 64 topic h)

  payload_field : take 8192 (drop 64 (ipc_message topic payload pid now)) ≡ ljust 8192 payload
  unfolding ipc_message
  payload_field =
      ap (take 8192) (drop-append (ljust 64 topic) _ 64 (length-ljust 64 topic h))
      ∙ take-append (ljust 8192 payload) _ 8192 (length-ljust 8192 payload k)

take-take_le : (k n : ℕ) (xs : Bytes) → k ≤ n → take k (take n xs) ≡ take k xs
take-take_le zero n xs h = refl
take-take_le (suc k) zero xs h = elim h [ ]
take-take_le (suc k) (suc n) [] h = refl
take-take_le (suc k) (suc n) (x ∷ xs) h = ap (λ t. x ∷ t) (take-take_le k n xs (omega arith))

take-drop-take :
    (j k n : ℕ) (xs : Bytes) → k + j ≤ n → take j (drop k (take n xs)) ≡ take j (drop k xs)
take-drop-take j zero n xs h = take-take_le j n xs (omega arith)
take-drop-take j (suc k) zero xs h = absurd (none_left h)
  where
    none_left : suc k + j ≤ 0 → ⊥
    none_left h = omega arith
take-drop-take j (suc k) (suc n) [] h = refl
take-drop-take j (suc k) (suc n) (x ∷ xs) h = take-drop-take j k n xs (omega arith)

-- What one `recv` of the listener gives of a message that was sent: the socket's first 8256 bytes
-- of the 8272 that `_send_ipc` keeps.
abbrev pub received : Bytes → Bytes → ℕ → ℕ → Bytes
received topic payload pid now = take 8256 (take 8272 (ipc_message topic payload pid now))

module _ (topic payload : Bytes) (pid now : ℕ) (h : length topic ≤ 64)
    (k : length payload ≤ 8192) where
  received_topic : take 64 (received topic payload pid now) ≡ ljust 64 topic
  received_topic =
      take-take_le 64 8256 (take 8272 (ipc_message topic payload pid now)) (omega arith)
      ∙ take-take_le 64 8272 (ipc_message topic payload pid now) (omega arith)
      ∙ topic_field topic payload pid now h k

  received_payload : take 8192 (drop 64 (received topic payload pid now)) ≡ ljust 8192 payload
  received_payload =
      take-drop-take 8192 64 8256 (take 8272 (ipc_message topic payload pid now)) (omega arith)
      ∙ take-drop-take 8192 64 8272 (ipc_message topic payload pid now) (omega arith)
      ∙ payload_field topic payload pid now h k

module _ (encode : Text → Bytes) (decode : Bytes → Option Text) where
  abbrev pub call_of : Text → Bytes → ℕ → Call
  call_of topic payload f = record { callback = f; topic = topic; payload = payload }

  -- What arrives of data that may end with zero bytes: all but those.
  pub handle_message-stripped :
      (topic : Text) (payload : Bytes) (pid now : ℕ) (s : Bridge)
      → decode (encode topic) ≡ some topic
      → length (encode topic) ≤ 64
      → length payload ≤ 8192
      → IsTrimmed (encode topic)
      → handle_message encode decode (received (encode topic) payload pid now) s ≡ record s {
        calls = s.calls ++ map (call_of topic (rstrip payload)) (callbacks_of topic s.callbacks);
      }
  unfolding handle_message deliver
  handle_message-stripped topic payload pid now s e h k t =
      let name : decode (rstrip (take 64 (received (encode topic) payload pid now))) ≡ some topic =
        ap (λ b. decode (rstrip b)) (received_topic (encode topic) payload pid now h k)
        ∙ ap decode (rstrip-ljust 64 (encode topic) t)
        ∙ e in
      let body : rstrip (take 8192 (drop 64 (received (encode topic) payload pid now)))
          ≡ rstrip payload =
        ap rstrip (received_payload (encode topic) payload pid now h k)
        ∙ rstrip-padded 8192 payload in
      ap₂ (λ n b. deliver encode decode n b s) name body

  -- If decoding undoes the encoding of a topic of at most 64 bytes, the data has at most 8192
  -- bytes, and neither ends with a zero byte, then the first 8256 bytes of their message call
  -- every callback of the topic, in the order of registration, with the topic and the data, and
  -- change nothing else.
  pub handle_message-ipc :
      (topic : Text) (payload : Bytes) (pid now : ℕ) (s : Bridge)
      → decode (encode topic) ≡ some topic
      → length (encode topic) ≤ 64
      → length payload ≤ 8192
      → IsTrimmed (encode topic)
      → IsTrimmed payload
      → handle_message encode decode (received (encode topic) payload pid now) s ≡ record s {
        calls = s.calls ++ map (call_of topic payload) (callbacks_of topic s.callbacks);
      }
  handle_message-ipc topic payload pid now s e h k t u =
      handle_message-stripped topic payload pid now s e h k t
      ∙ ap
          (λ b. record s {
            calls = s.calls ++ map (call_of topic b) (callbacks_of topic s.callbacks);
          })
          u

  pub subscribe-keeps :
      (accepted : Bool) (pid now : ℕ) (topic : Text) (callback : ℕ) (s : Bridge)
      → ((subscribe encode decode accepted pid now topic callback s).calls ≡ s.calls)
        × ((subscribe encode decode accepted pid now topic callback s).callbacks
            ≡ register topic callback s.callbacks)
  unfolding subscribe send_ipc
  subscribe-keeps accepted pid now topic callback s = on_socket s.connected accepted refl
    where
      on_socket :
          (c a : Bool)
          → s.connected ≡ c
          → ((subscribe encode decode a pid now topic callback s).calls ≡ s.calls)
            × ((subscribe encode decode a pid now topic callback s).callbacks
                ≡ register topic callback s.callbacks)
      on_socket true true e = (ground arith, ground arith)
      on_socket true false e = (ground arith, ground arith)
      on_socket false a e = (ground arith, ground arith)

  -- If decoding undoes the encoding of a topic of at most 64 bytes, the data has at most 8192
  -- bytes, and neither ends with a zero byte, then after `subscribe`, whatever the socket did,
  -- the first 8256 bytes of a message call the callbacks that the topic had and then the new
  -- one, with the topic and the data.
  pub subscribe-delivers :
      (accepted : Bool) (topic : Text) (payload : Bytes) (callback pid now : ℕ) (s : Bridge)
      → decode (encode topic) ≡ some topic
      → length (encode topic) ≤ 64
      → length payload ≤ 8192
      → IsTrimmed (encode topic)
      → IsTrimmed payload
      → (handle_message encode decode
          (received (encode topic) payload pid now)
          (subscribe encode decode accepted pid now topic callback s)).calls
        ≡ s.calls ++ map (call_of topic payload) (callbacks_of topic s.callbacks ++ callback ∷ [])
  unfolding subscribe
  subscribe-delivers accepted topic payload callback pid now s e h k t u =
      let after = subscribe encode decode accepted pid now topic callback s in
      let kept = subscribe-keeps accepted pid now topic callback s in
      ap (λ b. b.calls) (handle_message-ipc topic payload pid now after e h k t u)
      ∙ ap₂ (λ c f. c ++ map (call_of topic payload) f) kept.0
          (ap (callbacks_of topic) kept.1 ∙ callbacks_of-register topic callback s.callbacks)
