-- ===== src/Agent/SshAgent/Bind.antt =====
-- phone-auth-agent/src/ssh_agent.rs: the bound sessions that are read.
use bio_auth.Common.{
  ℕ, ◌≡◌, ◌≤◌, refl, sym, ap, subst, ◌∙◌, arith, List, ◌∷◌, ◌++◌, true, not, ok, refuse, text_eq,
  ◌==◌, length, >>=-eq-ok,
}
use bio_auth.Common.Bytes.{AreBytes}
use bio_auth.Text.{is_utf8, chars, chars_from, feed}
use bio_auth.Protocol.Defs.{invalid_operation}
use bio_auth.Protocol.Ssh.Writer
use bio_auth.Protocol.Ssh.Reader
use bio_auth.Protocol.Ssh.Fields.{
  then_written, same_name, string-read, string-written, text-read, text-written, uint8-written,
  finish-ok,
}
use bio_auth.Agent.SshAgent.{SessionBind, read_bind, session_bind}

session_bind_utf8 : is_utf8 session_bind ≡ true
unfolding is_utf8 chars chars_from feed
session_bind_utf8 = refl

-- The bytes that bind a connection to a host; the session and the signature are not looked into.
pub record IsBind (rest : List ℕ) (b : SessionBind) : Type 0 where
  pub session_id : List ℕ
  pub signature : List ℕ
  pub flag : ℕ
  pub written :
      rest
      ≡ Writer.text session_bind
        ++ (Writer.string b.host_key
            ++ (Writer.string session_id ++ (Writer.string signature ++ Writer.uint8 flag)))
  pub forwards : b.forwarding ≡ not (flag == 0)
  pub key_short : length b.host_key ≤ 65536
  pub session_short : length session_id ≤ 65536
  pub signature_short : length signature ≤ 65536

pub read_bind-reads : (rest : List ℕ) (b : SessionBind) → IsBind rest b → read_bind rest ≡ ok b
unfolding read_bind Reader.finish Reader.uint8
read_bind-reads rest b w =
    let tail = Writer.string w.signature ++ Writer.uint8 w.flag in
    rw
      (
        w.written,
        text-read session_bind (Writer.string b.host_key ++ (Writer.string w.session_id ++ tail))
            (ground arith) session_bind_utf8,
        string-read b.host_key (Writer.string w.session_id ++ tail) w.key_short,
        string-read w.session_id tail w.session_short,
        string-read w.signature (Writer.uint8 w.flag) w.signature_short,
        sym w.forwards,
      )
      refl

pub read_bind-written :
    (rest : List ℕ) (b : SessionBind) → AreBytes rest → read_bind rest ≡ ok b → IsBind rest b
unfolding read_bind
read_bind-written rest b bytes e =
    let ((name, rest1), e1, e) = >>=-eq-ok (Reader.text rest) _ e in
    let (_, named, e) =
      >>=-eq-ok (refuse (not (text_eq name session_bind)) invalid_operation) _ e in
    let ((host_key, rest2), e2, e) = >>=-eq-ok (Reader.string rest1) _ e in
    let ((session_id, rest3), e3, e) = >>=-eq-ok (Reader.string rest2) _ e in
    let ((signature, rest4), e4, e) = >>=-eq-ok (Reader.string rest3) _ e in
    let ((flag, rest5), e5, e) = >>=-eq-ok (Reader.uint8 rest4) _ e in
    let (_, e6, e) = >>=-eq-ok (Reader.finish rest5) _ e in
    let (s1, _) = text-written rest name rest1 bytes e1 in
    let s2 = string-written rest1 host_key rest2 s1.rest_bytes e2 in
    let s3 = string-written rest2 session_id rest3 s2.rest_bytes e3 in
    let s4 = string-written rest3 signature rest4 s3.rest_bytes e4 in
    let (w5, _, _) = uint8-written rest4 flag rest5 s4.rest_bytes e5 in
    let w6 = finish-ok rest5 e6 in
    let read : SessionBind = record { host_key = host_key; forwarding = not (flag == 0) } in
    let same : read ≡ b = ground arith in
    subst (IsBind rest) same (record {
      session_id = session_id;
      signature = signature;
      flag = flag;
      written = then_written s1 (same_name name session_bind named) (
          then_written s2 refl
            (then_written s3 refl (then_written s4 refl (w5 ∙ ap (λ (l : List ℕ). flag ∷ l) w6))));
      forwards = refl;
      key_short = s2.short;
      session_short = s3.short;
      signature_short = s4.short;
    })
