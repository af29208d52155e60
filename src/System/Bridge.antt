-- ===== src/System/Bridge.antt =====
-- src/system/julius_bridge.py: the messages that go to the services and come from them, and the
-- state files. Sockets are arguments: what a call of one gives, or none for an exception.
pub mod Delivery
mod Answers
mod Tests
use julius_os.Prelude.{
  ℕ, ◌+◌, Bool, true, false, not, ◌&&◌, ◌||◌, Option, none, some, List, [], ◌∷◌, ◌++◌, length, take,
  drop, map, nonempty, ltb, leb, ◌==◌, if◌then◌else◌,
}
use julius_os.Prelude.Text.{Text, codes, text_eq}
use julius_os.System.Bytes.{Bytes, zeros, ljust, rstrip, word, unword}

-- A registered callback is a number here; `calls` are the calls of callbacks, the latest last, and
-- `sent` the messages that the socket took. An exception of a callback is caught, so that a call
-- always counts as made.
pub record Call : Type 0 where
  pub callback : ℕ
  pub topic : Text
  pub payload : Bytes

pub record Bridge : Type 0 where
  pub connected : Bool
  pub callbacks : List (Text × List ℕ)
  pub calls : List Call
  pub sent : List Bytes

-- `data` of `publish`: a dictionary comes as its JSON text.
pub data Payload : Type 0 where
  dict : Text → Payload
  words : Text → Payload
  raw : Bytes → Payload

-- `_callbacks[topic]`, and whether there is any.
unfoldable pub callbacks_of : Text → List (Text × List ℕ) → List ℕ
callbacks_of t [] = []
callbacks_of t (c ∷ cs) = if text_eq t c.0 then c.1 else callbacks_of t cs

-- `_callbacks[topic].append(callback)`, after the empty list was put there if it was missing.
unfoldable pub register : Text → ℕ → List (Text × List ℕ) → List (Text × List ℕ)
register t f [] = (t, f ∷ []) ∷ []
register t f (c ∷ cs) =
    let rest = register t f cs in if text_eq t c.0 then (c.0, c.1 ++ f ∷ []) ∷ cs else c ∷ rest

-- The message of `_send_ipc`, before the cut: topic, payload, length, process, time (eight bytes,
-- of a time below 2^32) and four bytes of zeros.
unfoldable pub ipc_message : Bytes → Bytes → ℕ → ℕ → Bytes
ipc_message topic payload pid now =
    ljust 64 topic
    ++ (ljust 8192 payload
        ++ (word (length payload) ++ (word pid ++ (word now ++ (zeros 4 ++ word 0)))))

-- The message of `ipc_send` in services/julius_core/ipc.c, as it lies in memory: the topic with its
-- terminator, the data and its length, in fields of 64, 4096 and 4 bytes filled with zeros.
unfoldable pub core_message : Bytes → Bytes → Bytes
core_message topic payload =
    ljust 64 (take 63 topic) ++ (ljust 4096 (take 4096 payload) ++ word (length payload))

-- The push service's request.
unfoldable pub push_message : Bytes → Bytes → Bytes → ℕ → Bytes
push_message app title body priority =
    word 1
    ++ (ljust 64 app
        ++ (ljust 128 title
            ++ (ljust 256 body ++ (zeros 64 ++ (word 0 ++ (word 1 ++ (word priority ++ word 0)))))))

unfoldable pub permission_message : Bytes → ℕ → Bytes
permission_message app perm_type = word 1 ++ (ljust 64 app ++ word perm_type)

unfoldable pub save_message : Bytes → Bytes → Bytes → Bytes
save_message service account secret =
    word 1
    ++ (ljust 64 service
        ++ (ljust 64 account ++ (ljust 512 secret ++ (word (length secret) ++ zeros 128))))

unfoldable pub get_message : Bytes → Bytes → Bytes
get_message service account =
    word 2 ++ (ljust 64 service ++ (ljust 64 account ++ zeros (512 + 4 + 128)))

-- `send_notification`: what the service answers, or none for the -1 of an exception.
unfoldable pub notification_answer : Option Bytes → Option ℕ
unfolding unword
notification_answer none = none
notification_answer (some resp) = unword resp

-- `check_permission`: granted only by an answer of eight bytes whose second word is 1.
unfoldable pub permission_granted : Option Bytes → Bool
unfolding unword
permission_granted none = false
permission_granted (some resp) =
    if leb 8 (length resp)
    then elim (unword (take 4 resp)) [
      | none ↦ false
      | some _ ↦ elim (unword (drop 4 resp)) [ none ↦ false | some granted ↦ granted == 1 ]
    ]
    else false

-- `keychain_save`: whether the first word of the answer is 0.
unfoldable pub save_answer : Option Bytes → Bool
unfolding unword
save_answer none = false
save_answer (some resp) = elim (unword (take 4 resp)) [ none ↦ false | some status ↦ status == 0 ]

-- The data that an answer's status and length announce, if the status is 0 and there is any.
unfoldable pub secret_of : Option ℕ → Option ℕ → Bytes → Option Bytes
secret_of none dlen rest = none
secret_of (some status) none rest = none
secret_of (some status) (some dlen) rest =
    if status == 0 && ltb 0 dlen then some (take dlen rest) else none

-- `keychain_get`, as bytes: the source decodes them and leaves out what is not UTF-8.
unfoldable pub get_answer : Option Bytes → Option Bytes
unfolding unword secret_of
get_answer none = none
get_answer (some resp) =
    if leb 8 (length resp)
    then secret_of (unword (take 4 resp)) (unword (take 4 (drop 4 resp))) (drop 8 resp)
    else none

-- `encode` and `decode` are UTF-8's; a text that is not UTF-8 is an exception.
module _ (encode : Text → Bytes) (decode : Bytes → Option Text) where
  -- `accepted` tells whether `sendall` returned.
  unfoldable pub send_ipc : Bool → ℕ → ℕ → Text → Bytes → Bridge → Bridge
  unfolding ipc_message
  send_ipc accepted pid now topic payload s =
      if s.connected
      then (if accepted
          then record s { sent = take 8272 (ipc_message (encode topic) payload pid now) ∷ s.sent }
          else record s { connected = false })
      else s

  unfoldable pub publish : Bool → ℕ → ℕ → Text → Payload → Bridge → Bridge
  unfolding send_ipc
  publish accepted pid now topic (dict json) s = send_ipc accepted pid now topic (encode json) s
  publish accepted pid now topic (words t) s = send_ipc accepted pid now topic (encode t) s
  publish accepted pid now topic (raw b) s = send_ipc accepted pid now topic b s

  unfoldable pub subscribe : Bool → ℕ → ℕ → Text → ℕ → Bridge → Bridge
  unfolding send_ipc register
  subscribe accepted pid now topic callback s =
      send_ipc accepted pid now (codes "__subscribe__") (encode topic)
        (record s { callbacks = register topic callback s.callbacks })

  -- The calls of the topic's callbacks; a topic that does not decode is an exception.
  unfoldable pub deliver : Option Text → Bytes → Bridge → Bridge
  unfolding callbacks_of
  deliver none payload s = s
  deliver (some topic) payload s = record s {
    calls =
        s.calls
        ++ map (λ f. record { callback = f; topic = topic; payload = payload })
            (callbacks_of topic s.callbacks);
  }

  unfoldable pub handle_message : Bytes → Bridge → Bridge
  unfolding deliver
  handle_message received s =
      deliver (decode (rstrip (take 64 received))) (rstrip (take 8192 (drop 64 received))) s

  -- `wifi_connect`, whose message is a dictionary, and `wifi_disconnect`.
  unfoldable pub wifi_connect : Bool → ℕ → ℕ → Text → Bridge → Bridge
  unfolding publish
  wifi_connect accepted pid now json s =
      publish accepted pid now (codes "WIFI_CONNECT") (dict json) s

  unfoldable pub wifi_disconnect : Bool → ℕ → ℕ → Bridge → Bridge
  unfolding publish
  wifi_disconnect accepted pid now s =
      publish accepted pid now (codes "WIFI_DISCONNECT") (dict (codes "{}")) s

  unfoldable pub wifi_scan : Bool → ℕ → ℕ → Bridge → Bridge
  unfolding publish
  wifi_scan accepted pid now s = publish accepted pid now (codes "WIFI_SCAN") (dict (codes "{}")) s

  unfoldable pub bt_scan : Bool → ℕ → ℕ → Bridge → Bridge
  unfolding publish
  bt_scan accepted pid now s = publish accepted pid now (codes "BT_SCAN") (dict (codes "{}")) s

  unfoldable pub bt_connect : Bool → ℕ → ℕ → Text → Bridge → Bridge
  unfolding publish
  bt_connect accepted pid now json s = publish accepted pid now (codes "BT_CONNECT") (dict json) s

  -- `_connect_ipc`; `reached` tells whether the socket could be connected.
  unfoldable pub connect_ipc : Bool → Bridge → Bridge
  connect_ipc reached s = record s { connected = reached }

  -- One round of the listener while `_running`: what `recv` gives is an argument, none for an
  -- exception. With the state comes whether the loop goes on.
  unfoldable pub listen : Bool → Option Bytes → Bridge → Bridge × Bool
  unfolding connect_ipc handle_message
  listen reached answer s =
      if s.connected
      then elim answer [
        | none ↦ (record s { connected = false }, true)
        | some data_ ↦ if nonempty data_ then (handle_message data_ s, true) else (s, false)
      ]
      else (connect_ipc reached s, true)
