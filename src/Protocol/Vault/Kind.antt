-- ===== src/Protocol/Vault/Kind.antt =====
-- `ItemKind` of phone-auth-protocol/src/vault.rs, written and read.
use bio_auth.Common.{ℕ, ◌≡◌, ◌<◌, ◌^◌, refl, ap, ◌∙◌, arith, ok}
use bio_auth.Cbor.Items.{uint_item}
use bio_auth.Cbor.Reader
use bio_auth.Cbor.Position.{Reads, Takes}
use bio_auth.Protocol.Items.{IsU64, uint_field, uint-takes, coded-Reads, coded-takes}
use bio_auth.Protocol.Parser.{coded}
use bio_auth.Protocol.Vault.{ItemKind, login, note, totp, kind_wire, kind_from_wire}

kind_from_wire-wire :
    (k : ItemKind) → (kind_wire k < 2 ^ 64) × (kind_from_wire (kind_wire k) ≡ ok k)
unfolding kind_from_wire
kind_from_wire-wire login = (omega arith, refl)
kind_from_wire-wire note = (omega arith, refl)
kind_from_wire-wire totp = (omega arith, refl)

wire_of : (n : ℕ) (k : ItemKind) → kind_from_wire n ≡ ok k → n ≡ kind_wire k
unfolding kind_from_wire
wire_of n login e = ground arith
wire_of n note e = ground arith
wire_of n totp e = ground arith

pub kind-Reads :
    (k : ItemKind) → Reads (coded Reader.uint kind_from_wire) (uint_item (kind_wire k)) k
kind-Reads k =
    let (small, known) = kind_from_wire-wire k in
    coded-Reads Reader.uint (λ n. n) kind_from_wire kind_wire k (uint_field (kind_wire k) small)
      known

pub kind-takes : Takes (coded Reader.uint kind_from_wire) (λ used k. used ≡ uint_item (kind_wire k))
kind-takes =
    coded-takes Reader.uint (λ n. n) kind_from_wire kind_wire
      (λ used n. (used ≡ uint_item n) × IsU64 n) uint-takes
      (λ used n k (e, small) found. e ∙ ap uint_item (wire_of n k found))
