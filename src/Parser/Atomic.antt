-- ===== src/Parser/Atomic.antt =====
-- `encode` of both codecs of crates/server/src/parser.rs, its errors included.
use ocypode.Prelude.{
  ◌^◌, ◌<◌, ◌≤◌, ◌≡◌, refl, subst, ◌⊎◌, inl, inr, ◌++◌, ltb, ltb→lt, ltb→le, Bool-cases, Bytes,
  length, Result, ok, err, panic,
}
use ocypode.Parser.{Crates, CodecError, server_codec, client_codec}
use ocypode.Parser.Code.{CommandCodec}
use ocypode.Parser.Framing.{encode, server_encode, client_encode}
use ocypode.Parser.RoundTrip.{wire}

bound_of :
    {E : Type 0} {r : Result E Bytes} {p q : Bytes}
    → r ≡ ok p
    → r ≡ ok q
    → 2 ^ 32 ≤ length p
    → 2 ^ 32 ≤ length q
bound_of {p = p} {q = q} e h large =
    let same : p ≡ q = cc (e, h) in subst (λ l. 2 ^ 32 ≤ length l) same large

module _ (X : Crates) where
  -- The whole frame of a payload is appended, or nothing and the result is no success: prost gives
  -- no payload, or one of 4 GiB or more.
  abbrev pub AllOrNothing :
      {E M : Type 0} → CommandCodec X M → M → Bytes → Result E (Unit {0}) × Bytes → Type 0
  AllOrNothing k m output o =
      ((p : Bytes) × (k.prost.encode m ≡ ok p)
        × (length p < 2 ^ 32)
        × (o ≡ (ok tt, output ++ wire X k.command p)))
      ⊎ (((p : Bytes) → k.prost.encode m ≡ ok p → 2 ^ 32 ≤ length p)
          × (o.1 ≡ output)
          × ¬ (o.0 ≡ ok tt))

  encode_outcome :
      {E M : Type 0} (wrap : CodecError X → E) (k : CommandCodec X M) (m : M) (output : Bytes)
      (r : Result X.EncodeError Bytes)
      → k.prost.encode m ≡ r
      → AllOrNothing k m output (encode X wrap k m output)
  unfolding encode
  encode_outcome wrap k m output (ok p) e = elim (Bool-cases (ltb (length p) (2 ^ 32))) [
    | inl fits ↦ inl (p, e, ltb→lt (length p) (2 ^ 32) fits, rw (e, fits) refl)
    | inr large ↦ inr (
      λ q h. bound_of e h (ltb→le (length p) (2 ^ 32) large),
      rw (e, large) refl,
      rw (e, large) (λ h. cc),
    )
  ]
  encode_outcome wrap k m output (err x) e = inr (λ q h. absurd cc, rw e refl, rw e (λ h. cc))
  encode_outcome wrap k m output panic e = inr (λ q h. absurd cc, rw e refl, rw e (λ h. cc))

  -- Encoding with either codec is all or nothing: it succeeds and appends the bytes of the whole
  -- frame if prost gives a payload below 4 GiB, and otherwise does not succeed and leaves the output.
  pub encode-AllOrNothing :
      {M : Type 0} (k : CommandCodec X M) (m : M) (output : Bytes)
      → AllOrNothing k m output (server_encode X k m output)
        × AllOrNothing k m output (client_encode X k m output)
  unfolding server_encode client_encode
  encode-AllOrNothing k m output = (
    encode_outcome server_codec k m output (k.prost.encode m) refl,
    encode_outcome client_codec k m output (k.prost.encode m) refl,
  )
