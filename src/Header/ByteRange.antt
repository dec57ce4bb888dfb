-- ===== src/Header/ByteRange.antt =====
-- What is packed into a header consists of bytes (car_producer/src/packet_builder.py).
use pitcrypt_f.Prelude.{
  All-append, All-be, [], arith, some, suc, take, zero, ℕ, ◌++◌, ◌<◌, ◌∷◌, ◌≡◌,
}
use pitcrypt_f.Header.{HeaderFields, bytes_of, pack, pad32, zeros}
use pitcrypt_f.Hex.RoundTrip.{IsBytes}
use pitcrypt_f.Packet.{Bytes}

IsBytes-append : (xs ys : Bytes) → IsBytes xs → IsBytes ys → IsBytes (xs ++ ys)
IsBytes-append xs ys h k = All-append (λ b. b < 256) xs ys h k

IsBytes-zeros : (n : ℕ) → IsBytes (zeros n)
unfolding zeros
IsBytes-zeros zero = tt
IsBytes-zeros (suc n) = (omega arith, IsBytes-zeros n)

IsBytes-take : (n : ℕ) (xs : Bytes) → IsBytes xs → IsBytes (take n xs)
IsBytes-take zero xs h = tt
IsBytes-take (suc n) [] h = tt
IsBytes-take (suc n) (x ∷ xs) (a, h) = (a, IsBytes-take n xs h)

IsBytes-pad32 : (bs : Bytes) → IsBytes bs → IsBytes (pad32 bs)
unfolding pad32
IsBytes-pad32 bs h =
    IsBytes-take 32 (bs ++ zeros 32) (IsBytes-append bs (zeros 32) h (IsBytes-zeros 32))

IsBytes-bytes_of : (h : HeaderFields) → IsBytes h.checksum → IsBytes (bytes_of h)
unfolding bytes_of
IsBytes-bytes_of h k = IsBytes-append _ _ (All-be 4 h.magic) (
    IsBytes-append _ _ (All-be 1 h.version) (
      IsBytes-append _ _ (All-be 1 h.team_id) (
        IsBytes-append _ _ (All-be 1 h.session_id) (
          IsBytes-append _ _ (All-be 1 h.packet_type) (
            IsBytes-append _ _ (All-be 8 h.sequence) (
              IsBytes-append _ _ (All-be 8 h.timestamp_ms) (
                IsBytes-append _ _ (All-be 4 h.payload_len)
                  (IsBytes-append _ _ (IsBytes-pad32 h.checksum k) (All-be 4 h.reserved)))))))))

-- A packed header is bytes, if its hash is.
pub IsBytes-pack :
    (h : HeaderFields) {bs : Bytes} → pack h ≡ some bs → IsBytes h.checksum → IsBytes bs
unfolding pack
IsBytes-pack h {bs} e k =
    let made : bytes_of h ≡ bs = ground arith in rw made at (IsBytes-bytes_of h k)
