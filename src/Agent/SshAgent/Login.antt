-- ===== src/Agent/SshAgent/Login.antt =====
-- phone-auth-agent/src/ssh_agent.rs: the login that a request is for.
use bio_auth.Common.{
  ℕ, ◌≡◌, ◌≤◌, refl, ap, subst, ◌∙◌, arith, List, ◌∷◌, ◌++◌, true, not, ok, refuse, refuse-ok, str,
  text_eq, ◌==◌, length, >>=-eq-ok, Result, err, some,
}
use bio_auth.Common.Bytes.{AreBytes}
use bio_auth.Text.{is_utf8, chars, chars_from, feed}
use bio_auth.Protocol.Defs.{invalid_operation, ProtocolError}
use bio_auth.Protocol.Ssh.Writer
use bio_auth.Protocol.Ssh.Reader
use bio_auth.Protocol.Ssh.Fields.{
  then_written, same_name, string-read, string-written, text-read, text-written, uint8-written,
}
use bio_auth.Agent.SshAgent.{SignContext, read_context, to_option}

publickey_utf8 : is_utf8 (str "publickey") ≡ true
unfolding is_utf8 chars chars_from feed
publickey_utf8 = refl

-- The data of a login, as RFC 4252 lays it out.
pub record IsLogin (signed_data : List ℕ) (c : SignContext) : Type 0 where
  pub session_id : List ℕ
  pub rest : List ℕ
  pub written :
      signed_data
      ≡ Writer.string session_id
        ++ (50
            ∷ (Writer.text c.user
                ++ (Writer.text c.service ++ (Writer.text (str "publickey") ++ rest))))
  pub session_short : length session_id ≤ 65536
  pub user_short : length c.user ≤ 65536
  pub service_short : length c.service ≤ 65536
  pub user_text : is_utf8 c.user ≡ true
  pub service_text : is_utf8 c.service ≡ true

pub read_context-reads :
    (signed_data : List ℕ) (c : SignContext)
    → IsLogin signed_data c
    → read_context signed_data ≡ ok c
unfolding read_context Reader.uint8
read_context-reads signed_data c w =
    let tail = Writer.text (str "publickey") ++ w.rest in
    rw
      (
        w.written,
        string-read w.session_id (50 ∷ (Writer.text c.user ++ (Writer.text c.service ++ tail)))
            w.session_short,
        text-read c.user (Writer.text c.service ++ tail) w.user_short w.user_text,
        text-read c.service tail w.service_short w.service_text,
        text-read (str "publickey") w.rest (ground arith) publickey_utf8,
      )
      refl

pub read_context-written :
    (signed_data : List ℕ) (c : SignContext)
    → AreBytes signed_data
    → read_context signed_data ≡ ok c
    → IsLogin signed_data c
unfolding read_context
read_context-written signed_data c bytes e =
    let ((session_id, rest1), e1, e) = >>=-eq-ok (Reader.string signed_data) _ e in
    let ((kind, rest2), e2, e) = >>=-eq-ok (Reader.uint8 rest1) _ e in
    let (_, kinded, e) = >>=-eq-ok (refuse (not (kind == 50)) invalid_operation) _ e in
    let ((user, rest3), e3, e) = >>=-eq-ok (Reader.text rest2) _ e in
    let ((service, rest4), e4, e) = >>=-eq-ok (Reader.text rest3) _ e in
    let ((method, rest5), e5, e) = >>=-eq-ok (Reader.text rest4) _ e in
    let (_, named, e) =
      >>=-eq-ok (refuse (not (text_eq method (str "publickey"))) invalid_operation) _ e in
    let s1 = string-written signed_data session_id rest1 bytes e1 in
    let (w2, _, bytes2) = uint8-written rest1 kind rest2 s1.rest_bytes e2 in
    let (s3, u3) = text-written rest2 user rest3 bytes2 e3 in
    let (s4, u4) = text-written rest3 service rest4 s3.rest_bytes e4 in
    let (s5, _) = text-written rest4 method rest5 s4.rest_bytes e5 in
    let fifty : kind ≡ 50 = ground (arith, refuse-ok (not (kind == 50)) invalid_operation kinded) in
    let read : SignContext = record { user = user; service = service } in
    let same : read ≡ c = ground arith in
    subst (IsLogin signed_data) same (record {
      session_id = session_id;
      rest = rest5;
      written = then_written s1 refl (
          w2
          ∙ ap (λ (k : ℕ). k ∷ rest2) fifty
          ∙ ap (λ (l : List ℕ). 50 ∷ l)
              (then_written s3 refl (
                then_written s4 refl
                  (then_written s5 (same_name method (str "publickey") named) refl))));
      session_short = s1.short;
      user_short = s3.short;
      service_short = s4.short;
      user_text = u3;
      service_text = u4;
    })

pub to_option-some :
    {A : Type 0} (x : Result ProtocolError A) (a : A) → to_option x ≡ some a → x ≡ ok a
to_option-some (ok x) a e = ground arith
to_option-some (err x) a e = ground arith
