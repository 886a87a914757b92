-- ===== src/Session/Publish/Delivery.antt =====
-- What publish_message delivers.
use aeron_cluster_client_cpp.Prelude.{
  ℕ, ◌-◌, ◌≤◌, ◌≡◌, refl, sym, ap, ◌∙◌, Bytes, ◌∷◌, ◌++◌, Bool, true, false, not, length, take,
  length-take, if◌then◌else◌, arith,
}
use aeron_cluster_client_cpp.Prelude.Int.{ℤ, pos, eq_ℤ, to_u64, to_u64-lt}
use aeron_cluster_client_cpp.Json.{JsonLib}
use aeron_cluster_client_cpp.Sbe.Exception.{Result, ok, throws, ◌>>=◌}
use aeron_cluster_client_cpp.Sbe.TopicMessage.{compute_length}
use aeron_cluster_client_cpp.Encoder.{encode_topic_message}
use aeron_cluster_client_cpp.Encoder.Cut.{
  put_all, shrink, after_wrap_unnumbered, Fit, topic_message_bytes, encode_topic_message_cut,
}
use aeron_cluster_client_cpp.Sbe.Header.{MessageHeader, read_header}
use aeron_cluster_client_cpp.Parser.{parse_message, parse_embedded, decode_topic_message_with_sbe}
use aeron_cluster_client_cpp.Parser.Messages.{of_short_message, decode_short}
use aeron_cluster_client_cpp.Parser.Truncation.{read_header-take, length-topic_message_bytes}
use aeron_cluster_client_cpp.Parser.Dispatch.{session_header, parse_message_session_message}
use aeron_cluster_client_cpp.Session.State.{Config, Session}
use aeron_cluster_client_cpp.Session.Send.{Link, is_connected, send_combined_message}
use aeron_cluster_client_cpp.Session.History.{Reach}
use aeron_cluster_client_cpp.Session.Sent.{send_combined_message-session_header}
use aeron_cluster_client_cpp.Session.Publish.{create_topic_message, publish_message, send_created}

bind_cong {ℓ κ} :
    {A : Type ℓ} {B : Type κ} (m : Result A) (f g : A → Result B)
    → ((a : A) → f a ≡ g a)
    → (m >>= f) ≡ (m >>= g)
bind_cong (ok a) f g h = h a
bind_cong (throws e) f g h = refl

same_bytes :
    (now : ℤ) (t m u p h : Bytes)
    → create_topic_message now t m u p h ≡ encode_topic_message now t m u p h (pos 0)
unfolding create_topic_message encode_topic_message
same_bytes now t m u p h =
    bind_cong (compute_length (length t) (length m) (length u) (length p) (length h)) _ _
      (λ n. after_wrap_unnumbered (to_u64 now) n (put_all t m u p h shrink))

same_stamp :
    (nanoseconds milliseconds : ℤ) (t m u p h : Bytes)
    → eq_ℤ nanoseconds (pos 0) ≡ false
    → encode_topic_message nanoseconds t m u p h (pos 0)
      ≡ encode_topic_message milliseconds t m u p h nanoseconds
unfolding encode_topic_message
same_stamp nanoseconds milliseconds t m u p h e = rw e refl

-- create_topic_message of the session manager, whose clock counts nanoseconds, returns, or throws,
-- exactly what encode_topic_message of the encoder does for the same fields when it is given that
-- count as its timestamp, whatever the encoder's own clock of milliseconds says, if the count is not
-- 0. The two calls put the same fields in the same order.
pub create_topic_message-encode_topic_message :
    (nanoseconds milliseconds : ℤ) (t m u p h : Bytes)
    → eq_ℤ nanoseconds (pos 0) ≡ false
    → create_topic_message nanoseconds t m u p h
      ≡ encode_topic_message milliseconds t m u p h nanoseconds
create_topic_message-encode_topic_message nanoseconds milliseconds t m u p h e =
    same_bytes nanoseconds t m u p h ∙ same_stamp nanoseconds milliseconds t m u p h e

-- What is left of the message of create_topic_message.
abbrev cut_message : ℤ → Bytes → Bytes → Bytes → Bytes → Bytes → Bytes
cut_message now t m u p h =
    let full = topic_message_bytes (to_u64 now) 0 t m u p h in take (length full - 8) full

create_topic_message_lem :
    (now : ℤ) (t m u p h : Bytes)
    → Fit t m u p h
    → create_topic_message now t m u p h ≡ ok (cut_message now t m u p h)
create_topic_message_lem now t m u p h fit =
    same_bytes now t m u p h ∙ encode_topic_message_cut now (pos 0) t m u p h fit

route_embedded :
    (lib : JsonLib) (memory : Bytes)
    → 8 ≤ length memory
    → (read_header memory).schema_id ≡ 1
    → (read_header memory).template_id ≡ 1
    → parse_embedded lib memory ≡ decode_topic_message_with_sbe lib memory
unfolding parse_embedded
route_embedded lib memory long schema template = ground arith

-- What the parser makes of a cut message behind a session header.
parse_cut :
    (lib : JsonLib) (now : ℤ) (t m u p h : Bytes) (term session : ℕ)
    → Fit t m u p h
    → parse_message lib (session_header term session 0 ++ cut_message now t m u p h)
      ≡ of_short_message lib (to_u64 now) m u p h
parse_cut lib now t m u p h term session fit =
    let full = topic_message_bytes (to_u64 now) 0 t m u p h in
    let n = length-topic_message_bytes (to_u64 now) 0 t m u p h in
    let limit = length full - 8 in
    let body = take limit full in
    let size : length body ≡ limit = omega (arith, n, length-take {0} limit full) in
    let header = read_header-take (to_u64 now) 0 t m u p h limit fit (omega (arith, n)) in
    parse_message_session_message lib term session 0 body
      (λ e. omega (arith, n, size, ap (λ (b : Bytes). length b) e))
    ∙ route_embedded lib body (omega (arith, n, size))
        (ap (λ (k : MessageHeader). k.schema_id) header)
        (ap (λ (k : MessageHeader). k.template_id) header)
    ∙ decode_short lib (to_u64 now) t m u p h fit (to_u64-lt now)

guarded :
    (b : Bool) (x : Session × Bool) (s : Session)
    → (if not b then (s, false) else x).1 ≡ true
    → (if not b then (s, false) else x) ≡ x
guarded true x s h = refl
guarded false x s h = cc

-- In a state that the session manager reaches, for five strings of at most 65534 bytes each, when
-- publish_message returns true the publication has taken one message more, which lacks its last
-- eight bytes. The client's own parser, given that message, reads past its end if the headers have
-- at least eight bytes; returns the type, the identifier and the payload that were published, with
-- the time of the call and empty headers, if they have six or seven; and if they have fewer, reads
-- past the end or reports that the buffer is too short, depending on the lengths of the strings.
pub publish_message-received :
    (lib : JsonLib) (c : Config) (up_first up_before : Bool) (link : Link) (now : ℤ)
    (t m u p h : Bytes) (s : Session)
    → Reach s
    → Fit t m u p h
    → (publish_message c up_first up_before link now t m u p h s).1 ≡ true
    → (message : Bytes) × ((publish_message c up_first up_before link now t m u p h s).0.taken
        ≡ message ∷ s.taken)
      × (parse_message lib message ≡ of_short_message lib (to_u64 now) m u p h)
unfolding publish_message
publish_message-received lib c up_first up_before link now t m u p h s r fit done =
    let body = cut_message now t m u p h in
    let term = to_u64 s.leadership_term_id in
    let id = to_u64 s.session_id in
    let made = create_topic_message_lem now t m u p h fit in
    let created = create_topic_message now t m u p h in
    let x = send_created c up_before link created s in
    let same = guarded (is_connected up_first s) x s done in
    let sent : x ≡ send_combined_message c up_before link body s =
      ap (λ (k : Result Bytes). send_created c up_before link k s) made in
    let success = sym (ap (λ (k : Session × Bool). k.1) (same ∙ sent)) ∙ done in
    (
      session_header term id 0 ++ body,
      ap (λ (k : Session × Bool). k.0.taken) (same ∙ sent)
          ∙ send_combined_message-session_header c up_before link body s r success,
      parse_cut lib now t m u p h term id fit,
    )
