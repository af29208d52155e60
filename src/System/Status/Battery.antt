-- ===== src/System/Status/Battery.antt =====
-- The battery's event on its way from the core service through the bridge to the status bar.
use julius_os.Prelude.{
  ℕ, ◌≤◌, ◌<◌, ◌≡◌, refl, ap, ap₂, ◌∙◌, Bool, Option, some, [], ◌∷◌, ◌++◌, arith, length, map, take,
  drop, take_all, length-take, length-append,
}
use julius_os.Prelude.Int.{pos}
use julius_os.Prelude.Text.{Text, codes, text_eq}
use julius_os.System.Bytes.{
  Bytes, rstrip, word, unword-word, length-word, ljust, length-ljust, rstrip-ljust, take-append,
  drop-append, IsTrimmed,
}
use julius_os.System.Bridge.{
  Bridge, Call, callbacks_of, register, subscribe, core_message, deliver, handle_message,
}
use julius_os.System.Bridge.Delivery.{call_of, subscribe-keeps}
use julius_os.System.Status.{
  JuliusStatus, Info, on_battery, on_level, run_call, battery_callback, wifi_callback, bt_callback,
  subscribe_events,
}

-- The length behind the data, 4, is the last byte that is not zero.
rstrip-marked : (b : Bytes) → rstrip (b ++ word 4) ≡ b ++ 4 ∷ []
unfolding rstrip word
rstrip-marked [] = refl
rstrip-marked (x ∷ []) = refl
rstrip-marked (x ∷ y ∷ b) = rw (rstrip-marked (y ∷ b)) refl

-- What `_handle_message` takes of the core's message of four bytes: the whole field and the length.
core_payload :
    (topic : Bytes) (n : ℕ)
    → rstrip (take 8192 (drop 64 (core_message topic (word n)))) ≡ ljust 4096 (word n) ++ 4 ∷ []
unfolding core_message
core_payload topic n =
    let front = length-ljust 64 (take 63 topic) (omega (arith, length-take 63 topic)) in
    let field = length-ljust 4096 (word n) (omega (arith, length-word n)) in
    ap (λ b. rstrip (take 8192 b))
      (drop-append (ljust 64 (take 63 topic))
        (ljust 4096 (take 4096 (word n)) ++ word (length (word n))) 64 front)
    ∙ ap₂ (λ d k. rstrip (take 8192 (ljust 4096 d ++ word k)))
        (take_all 4096 (word n) (omega (arith, length-word n))) (length-word n)
    ∙ ap rstrip (
        take_all 8192 (ljust 4096 (word n) ++ word 4)
          (omega (arith, length-append (ljust 4096 (word n)) (word 4), field, length-word 4)))
    ∙ rstrip-marked (ljust 4096 (word n))

core_topic :
    (topic payload : Bytes)
    → length topic ≤ 63
    → IsTrimmed topic
    → rstrip (take 64 (core_message topic payload)) ≡ topic
unfolding core_message
core_topic topic payload h t =
    ap rstrip (
      take-append (ljust 64 (take 63 topic)) _ 64
        (length-ljust 64 (take 63 topic) (omega (arith, length-take 63 topic))))
    ∙ ap (λ b. rstrip (ljust 64 b)) (take_all 63 topic h)
    ∙ rstrip-ljust 64 topic t

-- The level stands in front.
on_battery-core :
    (n : ℕ) (s : JuliusStatus)
    → n < 4294967296
    → on_battery (ljust 4096 (word n) ++ 4 ∷ []) s ≡ record s { battery_level = pos n }
unfolding on_battery on_level word ljust
on_battery-core n s h = ap (λ o. on_level o s) (unword-word n h)

module _ (encode : Text → Bytes) (decode : Bytes → Option Text) where
  -- On a bridge without callbacks each topic gets its own, and no call is made.
  subscribe_events-keeps :
      (accepted : ℕ → Bool) (pid now : ℕ) (b : Bridge)
      → b.callbacks ≡ []
      → ((subscribe_events encode decode accepted pid now b).calls ≡ b.calls)
        × ((subscribe_events encode decode accepted pid now b).callbacks
            ≡ (codes "BATTERY", battery_callback ∷ [])
              ∷ (codes "WIFI_STATE", wifi_callback ∷ [])
              ∷ (codes "BT_STATE", bt_callback ∷ [])
              ∷ [])
  unfolding subscribe_events register text_eq
  subscribe_events-keeps accepted pid now b none_yet =
      let b1 = subscribe encode decode (accepted 0) pid now (codes "BATTERY") battery_callback b in
      let b2 = subscribe encode decode (accepted 1) pid now (codes "WIFI_STATE") wifi_callback b1 in
      let k1 = subscribe-keeps encode decode (accepted 0) pid now (codes "BATTERY") 0 b in
      let k2 = subscribe-keeps encode decode (accepted 1) pid now (codes "WIFI_STATE") 1 b1 in
      let k3 = subscribe-keeps encode decode (accepted 2) pid now (codes "BT_STATE") 2 b2 in
      let added = register (codes "WIFI_STATE") wifi_callback in
      let last = register (codes "BT_STATE") bt_callback in
      (
        k3.0 ∙ k2.0 ∙ k1.0,
        k3.1
            ∙ ap last (
                k2.1 ∙ ap added (k1.1 ∙ ap (register (codes "BATTERY") battery_callback) none_yet)),
      )

  -- If decoding undoes the encoding of "BATTERY", which has at most 63 bytes and does not end
  -- with a zero byte, and the status subscribed to its events at a bridge without callbacks,
  -- then the core service's message of a level below 2^32, as four bytes, makes one call, and
  -- the call sets the level of the status and changes nothing else of it.
  pub battery_event_taken :
      (parse : Bytes → Option Info) (accepted : ℕ → Bool) (pid now n : ℕ) (b : Bridge)
      (s : JuliusStatus)
      → decode (encode (codes "BATTERY")) ≡ some (codes "BATTERY")
      → length (encode (codes "BATTERY")) ≤ 63
      → IsTrimmed (encode (codes "BATTERY"))
      → b.callbacks ≡ []
      → n < 4294967296
      → (c : Call) × ((handle_message encode decode
            (core_message (encode (codes "BATTERY")) (word n))
            (subscribe_events encode decode accepted pid now b)).calls
          ≡ b.calls ++ c ∷ [])
        × (run_call parse c s ≡ record s { battery_level = pos n })
  unfolding run_call handle_message deliver callbacks_of text_eq
  battery_event_taken parse accepted pid now n b s e h t none_yet small =
      let b' = subscribe_events encode decode accepted pid now b in
      let kept = subscribe_events-keeps accepted pid now b none_yet in
      let payload = ljust 4096 (word n) ++ 4 ∷ [] in
      let name = ap decode (core_topic (encode (codes "BATTERY")) (word n) h t) ∙ e in
      (
        call_of encode decode (codes "BATTERY") payload battery_callback,
        ap₂ (λ o d. (deliver encode decode o d b').calls) name
              (core_payload (encode (codes "BATTERY")) n)
            ∙ ap₂
                (λ c f.
                  c
                  ++ map (call_of encode decode (codes "BATTERY") payload)
                      (callbacks_of (codes "BATTERY") f))
                kept.0 kept.1,
        on_battery-core n s small,
      )
