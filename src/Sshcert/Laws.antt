-- ===== src/Sshcert/Laws.antt =====
-- internal/sshcert/issuer.go with internal/authorization/certificates.go: what an issued
-- certificate is good for.
use tearenv.Common.{
  ℕ, ◌+◌, ◌-◌, ◌*◌, ◌/◌, ◌%◌, ◌^◌, ◌≤◌, ℤ, pos, negsuc, is_zero, Bool, true, false, not, ◌&&◌, Text,
  codes, text_eq, trim_space, Option, none, some, is_empty, leb, ltb, if◌then◌else◌, ok, >>=-eq-ok,
  require-then, from_option, from_option-eq-ok, ◌≡◌, refl, ap, arith, ◌∙◌, lookup,
}
use tearenv.Authorization.Services.{minute}
use tearenv.Authorization.Providers.{Certificate}
use tearenv.Authorization.Ssh.{Ssh, user_cert, in_period, for_principal}
use tearenv.Authorization.Certificates.{check_certificate, has_provenance, max_expiry}
use tearenv.Authorization.Certificates.Laws.{let_in, check_certificate_signed}
use tearenv.Blueprint.Slug.{Digest}
use tearenv.Sshcert.{
  Issuer, Subject, between, new_issuer, unix_before, unix_after, certificate_for, issue,
  default_ttl, signer_required, bad_ttl, bad_clock_skew, arguments_required, no_serial, not_signed,
}

between-le : (low high : ℕ) (d : ℤ) (n : ℕ) → between low high d ≡ some n → (low ≤ n) × (n ≤ high)
unfolding between
between-le low high (pos m) n e = (ground arith, ground arith)
between-le low high (negsuc m) n e = (cc, cc)

-- An issuer that is configured signs with the given key, for at least a minute and at most an
-- hour, and dates certificates back by at most five minutes.
pub new_issuer-le :
    (signer : Option Text) (ttl clock_skew : ℤ) (i : Issuer)
    → new_issuer signer ttl clock_skew ≡ ok i
    → (signer ≡ some (i.signer))
      × (minute ≤ i.ttl)
      × (i.ttl ≤ 60 * minute)
      × (i.clock_skew ≤ 5 * minute)
unfolding new_issuer
new_issuer-le signer ttl clock_skew i e =
    let (s, given, rest) = >>=-eq-ok (from_option signer signer_required) _ e in
    let wanted = if is_zero ttl then default_ttl else ttl in
    let (lifetime, fits, rest2) =
      >>=-eq-ok (from_option (between minute (60 * minute) wanted) bad_ttl) _ rest in
    let (skew, small, last) =
      >>=-eq-ok (from_option (between 0 (5 * minute) clock_skew) bad_clock_skew) _ rest2 in
    let (low, high) =
      between-le minute (60 * minute) wanted lifetime (from_option-eq-ok _ _ fits) in
    let (zero_, most) = between-le 0 (5 * minute) clock_skew skew (from_option-eq-ok _ _ small) in
    let signs : s ≡ i.signer = cc in
    let lives : lifetime ≡ i.ttl = cc in
    let skews : skew ≡ i.clock_skew = cc in
    (
      rw (← signs) (from_option-eq-ok signer signer_required given),
      rw (← lives) low,
      rw (← lives) high,
      rw (← skews) most,
    )

mod_small : (n : ℕ) → n ≤ max_expiry → n % 18446744073709551616 ≡ n
mod_small n h = omega arith

has_provenance-certificate_for :
    (digest : Digest) (i : Issuer) (serial now : ℕ) (identity key_name key : Text)
    (subject : Subject)
    → has_provenance (certificate_for digest i serial now identity key_name key subject) ≡ true
unfolding has_provenance certificate_for lookup text_eq
has_provenance-certificate_for digest i serial now identity key_name key subject = refl

unix_after_lem :
    (now d : ℕ) → (now + d) / 10 ^ 9 ≤ max_expiry → unix_after now d ≡ (now + d) / 10 ^ 9
unfolding unix_after
unix_after_lem now d h = mod_small ((now + d) / 10 ^ 9) h

unix_before_lem :
    (now d ttl : ℕ)
    → d ≤ now
    → (now + ttl) / 10 ^ 9 ≤ max_expiry
    → unix_before now d ≡ (now - d) / 10 ^ 9
unfolding unix_before
unix_before_lem now d ttl h k =
    let small : (now - d) / 10 ^ 9 ≤ max_expiry = omega arith in
    let wrap = mod_small ((now - d) / 10 ^ 9) small in
    let holds : leb d now ≡ true = ground arith in rw holds wrap

-- What the checks read of the certificate.
certificate_for-reads :
    (digest : Digest) (i : Issuer) (serial now : ℕ) (identity key_name key : Text)
    (subject : Subject) (time : ℕ) (principal : Text)
    → let c = certificate_for digest i serial now identity key_name key subject in
      ((for_principal principal c && in_period time c) ≡ (
        text_eq identity principal
        && leb (unix_before now (i.clock_skew)) time
        && ltb time (unix_after now (i.ttl))))
      × (c.valid_before ≡ unix_after now (i.ttl))
      × (c.cert_type ≡ user_cert)
      × (is_empty (c.critical_options) ≡ true)
      × (is_empty (c.valid_principals) ≡ false)
unfolding certificate_for
certificate_for-reads digest i serial now identity key_name key subject time principal =
    (ground arith, refl, refl, refl, refl)

module _ (ssh : Ssh) (digest : Digest) where
  signed-certificate_for :
      (authority : Text → Bool) (i : Issuer) (number now : ℕ) (identity key_name k : Text)
      (subject : Subject) (d : Certificate)
      → ssh.sign_cert (i.signer) (certificate_for digest i number now identity key_name k subject)
        ≡ some d
      → i.clock_skew ≤ now
      → (now + i.ttl) / 10 ^ 9 ≤ max_expiry
      → (time : ℕ) (principal : Text)
      → check_certificate ssh authority time principal d
        ≡ ok (
            if text_eq identity principal
              && leb ((now - i.clock_skew) / 10 ^ 9) time
              && ltb time ((now + i.ttl) / 10 ^ 9)
            then some (record {
              identity = principal;
              provider = codes "oidc-ssh-certificate";
              valid_before = some ((now + i.ttl) / 10 ^ 9);
            })
            else none)
  signed-certificate_for authority i number now identity key_name k subject d signed late early time
        principal =
      let c = certificate_for digest i number now identity key_name k subject in
      let (reads, expiry, user, plain, names) =
        certificate_for-reads digest i number now identity key_name k subject time principal in
      let start = unix_before_lem now (i.clock_skew) (i.ttl) late early in
      let end = unix_after_lem now (i.ttl) early in
      let bound : leb (c.valid_before) max_expiry ≡ true = ground arith in
      let answer =
        check_certificate_signed ssh authority (i.signer) principal time c d user
          (has_provenance-certificate_for digest i number now identity key_name k subject) plain
          names bound signed in
      let period : (for_principal principal c && in_period time c) ≡ (
          text_eq identity principal
          && leb ((now - i.clock_skew) / 10 ^ 9) time
          && ltb time ((now + i.ttl) / 10 ^ 9)) =
        rw (← start, ← end) reads in
      answer
      ∙ ap (λ b. ok (if b then some (let_in principal c) else none)) period
      ∙ ap
          (λ n. ok (
            if text_eq identity principal
              && leb ((now - i.clock_skew) / 10 ^ 9) time
              && ltb time ((now + i.ttl) / 10 ^ 9)
            then some (record {
              identity = principal;
              provider = codes "oidc-ssh-certificate";
              valid_before = some n;
            })
            else none))
          (expiry ∙ end)

  -- A certificate that was issued at a time that is not before its clock skew, and that ends
  -- within 63 bits of seconds, lets in exactly the identity it was issued for, exactly from the
  -- second of that time less the skew up to, but not at, the second in which its lifetime ends,
  -- and until then.
  pub check_certificate-issue :
      (authority : Text → Bool) (i : Issuer) (serial : Option ℕ) (now : ℕ)
      (identity key_name : Text) (key : Option Text) (subject : Subject) (d : Certificate)
      → issue ssh digest i serial now identity key_name key subject ≡ ok d
      → i.clock_skew ≤ now
      → (now + i.ttl) / 10 ^ 9 ≤ max_expiry
      → (time : ℕ) (principal : Text)
      → check_certificate ssh authority time principal d
        ≡ ok (
            if text_eq identity principal
              && leb ((now - i.clock_skew) / 10 ^ 9) time
              && ltb time ((now + i.ttl) / 10 ^ 9)
            then some (record {
              identity = principal;
              provider = codes "oidc-ssh-certificate";
              valid_before = some ((now + i.ttl) / 10 ^ 9);
            })
            else none)
  unfolding issue
  check_certificate-issue authority i serial now identity key_name key subject d e late early time
        principal =
      let (named, rest) =
        require-then (not (is_empty (trim_space identity)) && not (is_empty (trim_space key_name)))
          _ _ e in
      let (k, has, rest2) = >>=-eq-ok (from_option key arguments_required) _ rest in
      let (number, drawn, rest3) = >>=-eq-ok (from_option serial no_serial) _ rest2 in
      let signed =
        from_option-eq-ok
          (ssh.sign_cert (i.signer)
            (certificate_for digest i number now identity key_name k subject))
          not_signed rest3 in
      signed-certificate_for authority i number now identity key_name k subject d signed late early
        time principal
