-- ===== src/Protocol/Vault/PageWire.antt =====
-- `ListResponse` of phone-auth-protocol/src/vault.rs, written and read.
use bio_auth.Common.{
  ℕ, zero, suc, ◌≤◌, ◌≡◌, refl, sym, ap, ◌∙◌, ◌++◌, [], ◌∷◌, List, arith, append_assoc, append-nil,
  ok, length, All, refuse, ltb, subst,
}
use bio_auth.Common.Int.{IsI64}
use bio_auth.Cbor.Items.{array_item, uint_item, int_item, text_item, writes}
use bio_auth.Cbor.Writer.{Writer, extend}
use bio_auth.Cbor.Reader
use bio_auth.Cbor.RoundTrip.{array-Reads}
use bio_auth.Cbor.Strict.{array-Takes}
use bio_auth.Cbor.Position.{Reads, Takes, Takes-bind, Takes-ok, Takes-weaken}
use bio_auth.Protocol.Codec.{
  Reads-bind, Reads-pure, item-Reads, item-Takes, check-Reads, refuse-Takes,
}
use bio_auth.Protocol.Items.{
  IsText, IsU64, text_field, text-takes, uint_field, uint-takes, int_field, int-takes,
}
use bio_auth.Protocol.Parser.{item, check, coded, pure, ◌>>=◌, ◌>>◌}
use bio_auth.Protocol.Defs.{ProtocolError, payload_size}
use bio_auth.Protocol.Payload.{array_of, opening}
use bio_auth.Protocol.Payload.Laws.{array_of-Reads, array_of-takes, opening-Reads, opening-takes}
use bio_auth.Protocol.Vault.{kind_wire, kind_from_wire}
use bio_auth.Protocol.Vault.Kind.{kind-Reads, kind-takes}
use bio_auth.Protocol.Vault.Page.{
  ItemSummary, ListResponse, write_summary, write_items, max_page_items, encode_list_response,
  validate_list_response,
}
use bio_auth.Protocol.Vault.PageDecode.{read_summary, read_items, read_page, read_list_response}

-- What the types of the source say of a row.
pub record IsTypedSummary (m : ItemSummary) : Type 0 where
  pub id_typed : IsText m.id
  pub revision_typed : IsU64 m.revision
  pub name_typed : IsText m.name
  pub username_typed : IsText m.username
  pub uri_typed : IsText m.uri
  pub updated_at_ms_typed : IsI64 m.updated_at_ms

pub record IsTypedListResponse (m : ListResponse) : Type 0 where
  pub items_typed : All IsTypedSummary m.items
  pub next_cursor_typed : IsText m.next_cursor

unfoldable pub summary_items : ItemSummary → List ℕ
summary_items m =
    array_item 7
    ++ (text_item m.id
        ++ (uint_item m.revision
            ++ (uint_item (kind_wire m.kind)
                ++ (text_item m.name
                    ++ (text_item m.username
                        ++ (text_item m.uri ++ (int_item m.updated_at_ms ++ [])))))))

unfoldable pub all_items : List ItemSummary → List ℕ
all_items [] = []
all_items (m ∷ ms) = summary_items m ++ all_items ms

unfoldable pub page_items : List ItemSummary → List ℕ
page_items ms = array_item (length ms) ++ all_items ms

write_summary-extend :
    (m : ItemSummary) (w : Writer) → write_summary m w ≡ extend w (summary_items m)
unfolding write_summary summary_items
write_summary-extend m w = simp (writes, append_assoc, append-nil)

write_items-extend :
    (ms : List ItemSummary) (w : Writer) → write_items ms w ≡ extend w (all_items ms)
unfolding write_items all_items
write_items-extend [] w = simp (append-nil)
write_items-extend (m ∷ ms) w =
    rw (write_summary-extend m w)
      (write_items-extend ms (extend w (summary_items m)) ∙ simp (append_assoc))

summary-Reads : (m : ItemSummary) → IsTypedSummary m → Reads read_summary (summary_items m) m
unfolding read_summary summary_items
summary-Reads m t = Reads-bind _ _ _ _ tt m (array_of-Reads 7 (omega arith)) (
    Reads-bind _ _ _ _ m.id m (text_field _ t.id_typed) (
      Reads-bind _ _ _ _ m.revision m (uint_field _ t.revision_typed) (
        Reads-bind _ _ _ _ m.kind m (kind-Reads m.kind) (
          Reads-bind _ _ _ _ m.name m (text_field _ t.name_typed) (
            Reads-bind _ _ _ _ m.username m (text_field _ t.username_typed) (
              Reads-bind _ _ _ _ m.uri m (text_field _ t.uri_typed) (
                Reads-bind _ _ _ _ m.updated_at_ms m (int_field _ t.updated_at_ms_typed)
                  (Reads-pure m))))))))

items-Reads :
    (ms : List ItemSummary)
    → All IsTypedSummary ms
    → Reads (read_items (length ms)) (all_items ms) ms
unfolding read_items all_items
items-Reads [] t = Reads-pure []
items-Reads (m ∷ ms) t =
    Reads-bind read_summary (λ x. read_items (length ms) >>= λ xs. pure (x ∷ xs)) (summary_items m)
      (all_items ms) m (m ∷ ms) (summary-Reads m t.0)
      (subst (λ (l : List ℕ). Reads (read_items (length ms) >>= λ xs. pure (m ∷ xs)) l (m ∷ ms))
        (append-nil (all_items ms))
        (Reads-bind (read_items (length ms)) (λ xs. pure (m ∷ xs)) (all_items ms) [] ms (m ∷ ms)
          (items-Reads ms t.1) (Reads-pure (m ∷ ms))))

few : (n : ℕ) (x : ProtocolError) → n ≤ 32 → refuse (ltb max_page_items n) x ≡ ok tt
few n x h = ground arith

page-Reads :
    (ms : List ItemSummary)
    → All IsTypedSummary ms
    → length ms ≤ 32
    → Reads read_page (page_items ms) ms
unfolding read_page page_items
page-Reads ms t h =
    Reads-bind (item Reader.array)
      (λ count. check (refuse (ltb max_page_items count) (payload_size count)) >> read_items count)
      _ _ (length ms) ms (item-Reads Reader.array _ _ (array-Reads (length ms) (omega arith)))
      (Reads-bind (check (refuse (ltb max_page_items (length ms)) (payload_size (length ms))))
        (λ _. read_items (length ms)) [] _ tt ms (check-Reads _ tt (few (length ms) _ h))
        (items-Reads ms t))

summary-takes : Takes read_summary (λ used m. (used ≡ summary_items m) × IsTypedSummary m)
unfolding read_summary
summary-takes = Takes-bind (array_of 7) _ _ _ (array_of-takes 7) λ u0 _ _ e0.
    Takes-bind (item Reader.text) _ _ _ text-takes λ u1 id _ (e1, w1).
      Takes-bind (item Reader.uint) _ _ _ uint-takes λ u2 revision _ (e2, w2).
        Takes-bind (coded Reader.uint kind_from_wire) _ _ _ kind-takes λ u3 kind _ e3.
          Takes-bind (item Reader.text) _ _ _ text-takes λ u4 name _ (e4, w4).
            Takes-bind (item Reader.text) _ _ _ text-takes λ u5 username _ (e5, w5).
              Takes-bind (item Reader.text) _ _ _ text-takes λ u6 uri _ (e6, w6).
                Takes-bind (item Reader.int) _ _ _ int-takes λ u7 at _ (e7, w7). Takes-ok _ _ (
                  rw (e0, e1, e2, e3, e4, e5, e6, e7) (unfold summary_items in refl),
                  record {
                    id_typed = w1;
                    revision_typed = w2;
                    name_typed = w4;
                    username_typed = w5;
                    uri_typed = w6;
                    updated_at_ms_typed = w7;
                  },
                )

items-takes :
    (n : ℕ)
    → Takes
        (read_items n)
        (λ used ms. (used ≡ all_items ms) × All IsTypedSummary ms × (length ms ≡ n))
unfolding read_items all_items
items-takes zero = Takes-ok [] _ (refl, tt, refl)
items-takes (suc n) = Takes-bind read_summary _ _ _ summary-takes λ u0 m _ (e0, w0).
    Takes-bind (read_items n) _ _ _ (items-takes n) λ u1 ms _ (e1, w1, l1).
      Takes-ok (m ∷ ms) _ (rw (e0, e1, append-nil (all_items ms)) refl, (w0, w1), ap suc l1)

page-takes : Takes read_page (λ used ms. (used ≡ page_items ms) × All IsTypedSummary ms)
unfolding read_page page_items
page-takes =
    Takes-bind (item Reader.array) _ _ _ (item-Takes Reader.array _ array-Takes)
      λ u0 count _ (e0, _). refuse-Takes (ltb max_page_items count) _ _ _ λ size.
        Takes-weaken _ _ (λ u1 ms _ (e1, w1, l1). (rw (e0, e1, l1) refl, w1)) (items-takes count)

list_response_items : ListResponse → List ℕ
list_response_items m =
    (array_item 3 ++ (uint_item 1 ++ [])) ++ (page_items m.items ++ (text_item m.next_cursor ++ []))

encode_list_response-items : (m : ListResponse) → encode_list_response m ≡ list_response_items m
unfolding encode_list_response list_response_items page_items
encode_list_response-items m = simp (
  encode_list_response, list_response_items, page_items, writes, write_items-extend, append_assoc,
  append-nil,
)

-- A page that is valid has no more rows than it may.
few_rows : (m : ListResponse) → validate_list_response m ≡ ok tt → length m.items ≤ 32
unfolding validate_list_response
few_rows m e = ground arith

pub list_response-Reads :
    (m : ListResponse)
    → IsTypedListResponse m
    → validate_list_response m ≡ ok tt
    → Reads read_list_response (encode_list_response m) m
unfolding read_list_response list_response_items
list_response-Reads m t e = rw (encode_list_response-items m) (
    Reads-bind _ _ _ _ tt m (opening-Reads 1 3 (omega arith) (omega arith)) (
      Reads-bind _ _ _ _ m.items m (page-Reads m.items t.items_typed (few_rows m e))
        (Reads-bind _ _ _ _ m.next_cursor m (text_field _ t.next_cursor_typed) (Reads-pure m))))

pub list_response-takes :
    Takes read_list_response (λ used m. (used ≡ encode_list_response m) × IsTypedListResponse m)
unfolding read_list_response
list_response-takes = Takes-bind (opening 1 3) _ _ _ (opening-takes 1 3) λ u0 _ _ e0.
    Takes-bind read_page _ _ _ page-takes λ u1 items _ (e1, w1).
      Takes-bind (item Reader.text) _ _ _ text-takes λ u2 cursor _ (e2, w2). Takes-ok _ _ (
        rw (e0, e1, e2) (sym (unfold list_response_items in encode_list_response-items _)),
        record { items_typed = w1; next_cursor_typed = w2 },
      )
