-- ===== src/Save/Keys.antt =====
-- The forms of a public key that `verify_kaspa_signature` accepts.
use k_indexer.Prelude.{ℕ, ◌≡◌, sym, ◌∙◌, some, ◌∷◌, length, arith}
use k_indexer.Text.{Text}
use k_indexer.Store.{Bytes}
use k_indexer.Save.{Libs, ◌>>=◌, x_only_bytes, check_signature, verify_kaspa_signature}

x_only_bytes-compressed :
    (prefix : ℕ) (key : Bytes) → length key ≡ 32 → x_only_bytes (prefix ∷ key) ≡ some key
unfolding x_only_bytes
x_only_bytes-compressed prefix key h = ground arith

x_only_bytes-bare : (key : Bytes) → length key ≡ 32 → x_only_bytes key ≡ some key
unfolding x_only_bytes
x_only_bytes-bare key h = ground arith

module _ {Key : Type 0} (libs : Libs Key) where
  -- The check reads a public key through its x-only bytes.
  verify-x_only :
      (message signature p q : Text)
      → (libs.hex.decode p >>= x_only_bytes) ≡ (libs.hex.decode q >>= x_only_bytes)
      → verify_kaspa_signature libs message signature p
        ≡ verify_kaspa_signature libs message signature q
  unfolding verify_kaspa_signature check_signature
  verify-x_only message signature p q h = rw h

  -- The first byte of a 33-byte key is not read: a signature that is valid for a sender is valid for
  -- the sender with any other prefix, and for the sender without one, so that one key pair signs for
  -- several senders.
  pub verify-prefix :
      (message signature p q bare : Text) (a b : ℕ) (key : Bytes)
      → libs.hex.decode p ≡ some (a ∷ key)
      → libs.hex.decode q ≡ some (b ∷ key)
      → libs.hex.decode bare ≡ some key
      → length key ≡ 32
      → (verify_kaspa_signature libs message signature p
          ≡ verify_kaspa_signature libs message signature q)
        × (verify_kaspa_signature libs message signature p
            ≡ verify_kaspa_signature libs message signature bare)
  verify-prefix message signature p q bare a b key hp hq hb h =
      let ep : (libs.hex.decode p >>= x_only_bytes) ≡ some key =
        rw hp (x_only_bytes-compressed a key h) in
      let eq : (libs.hex.decode q >>= x_only_bytes) ≡ some key =
        rw hq (x_only_bytes-compressed b key h) in
      let eb : (libs.hex.decode bare >>= x_only_bytes) ≡ some key =
        rw hb (x_only_bytes-bare key h) in
      (
        verify-x_only message signature p q (ep ∙ sym eq),
        verify-x_only message signature p bare (ep ∙ sym eb),
      )
