-- ===== src/Encoder/Layout.antt =====
-- What the session messages look like on the wire.
use aeron_cluster_client_cpp.Prelude.{
  ℕ, zero, suc, ◌≡◌, ap, ap₂, ◌∙◌, refl, Bytes, [], ◌++◌, length, le, bytes_of_u64, arith, drop,
  write_at, replicate, write_at-zero, write_at-nil, length-replicate, replicate-add, append-nil,
}
use aeron_cluster_client_cpp.Prelude.Int.{ℤ, to_u64, to_u32}
use aeron_cluster_client_cpp.Encoder.{
  encode_session_keep_alive, encode_session_close_request, encode_session_connect_request,
}

-- The wire format of a session message with two words: block length, template, schema, version,
-- leadership term, session.
abbrev pub session_message : ℕ → ℕ → ℕ → Bytes
session_message template_id term session =
    le 2 16 ++ (le 2 template_id ++ (le 2 111 ++ (le 2 8 ++ (le 8 term ++ le 8 session))))

-- The keep-alive message has template 5 and carries the term and the session.
pub encode_session_keep_alive_layout :
    (term session : ℤ)
    → encode_session_keep_alive term session ≡ session_message 5 (to_u64 term) (to_u64 session)
unfolding encode_session_keep_alive
encode_session_keep_alive_layout term session =
    ap₂ (λ (a b : Bytes). le 2 16 ++ (le 2 5 ++ (le 2 111 ++ (le 2 8 ++ (a ++ b)))))
      (bytes_of_u64 (to_u64 term)) (bytes_of_u64 (to_u64 session))

pub encode_session_close_request_layout :
    (term session : ℤ)
    → encode_session_close_request term session ≡ session_message 4 (to_u64 term) (to_u64 session)
unfolding encode_session_close_request
encode_session_close_request_layout term session =
    ap₂ (λ (a b : Bytes). le 2 16 ++ (le 2 4 ++ (le 2 111 ++ (le 2 8 ++ (a ++ b)))))
      (bytes_of_u64 (to_u64 term)) (bytes_of_u64 (to_u64 session))

-- The connect request has template 3: correlation id, stream, protocol version, and the channel
-- behind a 32-bit length.
unfoldable pub connect_request : ℕ → ℕ → ℕ → Bytes → Bytes
connect_request correlation_id stream_id version channel =
    le 2 16
    ++ (le 2 3
        ++ (le 2 111
            ++ (le 2 8
                ++ (le 8 correlation_id
                    ++ (le 4 stream_id ++ (le 4 version ++ (le 4 (length channel) ++ channel)))))))

-- `encode_session_connect_request` writes the connect request: block length 16, template 3, schema
-- 111, version 8, the correlation id in 64 bits, the stream id and the protocol version in 32 bits
-- each, and the response channel behind its length in 32 bits.
pub encode_session_connect_request_layout :
    (correlation_id stream_id version : ℤ) (channel : Bytes)
    → encode_session_connect_request correlation_id stream_id channel version
      ≡ connect_request (to_u64 correlation_id) (to_u32 stream_id) (to_u32 version) channel
unfolding encode_session_connect_request connect_request
encode_session_connect_request_layout correlation_id stream_id version channel =
    rw (replicate-add {A = ℕ} 28 (length channel) 0) (
      ap (λ (b : Bytes). connect_request_head ++ b)
        (ap (λ (b : Bytes). write_at b 0 channel)
            (write_at-nil (replicate {A = ℕ} (length channel) 0) 0)
          ∙ write_at-zero (replicate (length channel) 0) channel
              (omega (arith, length-replicate {A = ℕ} (length channel) 0))
          ∙ ap (◌++◌ channel) (drop_all (length channel))
          ∙ append-nil channel))
  where
    connect_request_head : Bytes
    connect_request_head =
        le 2 16
        ++ (le 2 3
            ++ (le 2 111
                ++ (le 2 8
                    ++ (le 8 (to_u64 correlation_id)
                        ++ (le 4 (to_u32 stream_id)
                            ++ (le 4 (to_u32 version) ++ le 4 (length channel)))))))

    drop_all : (n : ℕ) → drop {A = ℕ} n (replicate n 0) ≡ []
    drop_all zero = refl
    drop_all (suc n) = drop_all n
