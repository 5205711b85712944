-- ===== src/Agent/SshAgent/Sign.antt =====
-- phone-auth-agent/src/ssh_agent.rs: the requests to sign that are read.
use bio_auth.Common.{
  ℕ, ◌≡◌, ◌≤◌, ◌<◌, ◌^◌, refl, sym, ap, subst, ◌∙◌, arith, List, [], ◌++◌, ok, length, >>=-eq-ok,
  append-nil,
}
use bio_auth.Common.Bytes.{AreBytes}
use bio_auth.Protocol.Ssh.Writer
use bio_auth.Protocol.Ssh.Reader
use bio_auth.Protocol.Ssh.Fields.{
  then_written, string-read, string-written, uint32-read, uint32-written, finish-ok,
}
use bio_auth.Agent.SshAgent.{SignRequest, read_sign}

-- The bytes of a request to sign.
pub record IsSign (rest : List ℕ) (r : SignRequest) : Type 0 where
  pub written :
      rest ≡ Writer.string r.key_blob ++ (Writer.string r.signed_data ++ Writer.uint32 r.flags)
  pub blob_short : length r.key_blob ≤ 65536
  pub data_short : length r.signed_data ≤ 65536
  pub flags_small : r.flags < 2 ^ 32

pub read_sign-reads : (rest : List ℕ) (r : SignRequest) → IsSign rest r → read_sign rest ≡ ok r
unfolding read_sign Reader.finish
read_sign-reads rest r w =
    let last : Reader.uint32 (Writer.uint32 r.flags) ≡ ok (r.flags, []) =
      ap Reader.uint32 (sym (append-nil (Writer.uint32 r.flags)))
      ∙ uint32-read r.flags [] w.flags_small in
    rw
      (
        w.written,
        string-read r.key_blob (Writer.string r.signed_data ++ Writer.uint32 r.flags) w.blob_short,
        string-read r.signed_data (Writer.uint32 r.flags) w.data_short,
        last,
      )
      refl

pub read_sign-written :
    (rest : List ℕ) (r : SignRequest) → AreBytes rest → read_sign rest ≡ ok r → IsSign rest r
unfolding read_sign
read_sign-written rest r b e =
    let ((key_blob, rest1), e1, e) = >>=-eq-ok (Reader.string rest) _ e in
    let ((signed_data, rest2), e2, e) = >>=-eq-ok (Reader.string rest1) _ e in
    let ((flags, rest3), e3, e) = >>=-eq-ok (Reader.uint32 rest2) _ e in
    let (done, e4, e) = >>=-eq-ok (Reader.finish rest3) _ e in
    let s1 = string-written rest key_blob rest1 b e1 in
    let s2 = string-written rest1 signed_data rest2 s1.rest_bytes e2 in
    let (w3, small, _) = uint32-written rest2 flags rest3 s2.rest_bytes e3 in
    let w4 = finish-ok rest3 e4 in
    let read : SignRequest = record {
      key_blob = key_blob;
      signed_data = signed_data;
      flags = flags;
    } in
    let same : read ≡ r = ground arith in
    let behind : rest2 ≡ Writer.uint32 flags =
      w3 ∙ ap (λ (l : List ℕ). Writer.uint32 flags ++ l) w4 ∙ append-nil (Writer.uint32 flags) in
    subst (IsSign rest) same (record {
      written = then_written s1 refl (then_written s2 refl behind);
      blob_short = s1.short;
      data_short = s2.short;
      flags_small = small;
    })
