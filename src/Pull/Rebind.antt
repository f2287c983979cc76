-- ===== src/Pull/Rebind.antt =====
-- api/pull.py: what the second resolution of `_double_resolve_check` can find.
use turbohaul_manager_rocm.Prelude.{
  ℕ, ◌+◌, ◌==◌, String, true, some, Result, ok, ◌≡◌, refl, sym, ap, ◌∙◌, subst, eq_refl,
}
use turbohaul_manager_rocm.Ssrf.{Net, UrlSafetyError, validate_pull_url}
use turbohaul_manager_rocm.Ssrf.Urls.{validate_pull_url-IsVetted}
use turbohaul_manager_rocm.Pull.{double_resolve_check, compare_hosts}

-- The second resolution is compared by the host's name alone: for a URL that both validations accept,
-- the check accepts it with the first address, whatever address the second one gave.
pub double_resolve_check_blind :
    (net : Net) (query : ℕ) (url host1 ip1 host2 ip2 : String)
    → validate_pull_url net query url ≡ ok (host1, ip1)
    → validate_pull_url net (query + 1) url ≡ ok (host2, ip2)
    → double_resolve_check net query url ≡ ok (host1, ip1)
unfolding double_resolve_check
double_resolve_check_blind net query url host1 ip1 host2 ip2 a b =
    let first = (validate_pull_url-IsVetted net query url host1 ip1 a).named in
    let second = (validate_pull_url-IsVetted net (query + 1) url host2 ip2 b).named in
    let same : host1 ≡ host2 = (let e : some host1 ≡ some host2 = sym first ∙ second in cc) in
    let equal : (host1 == host2) ≡ true =
      subst (λ (h : String). (host1 == h) ≡ true) same (eq_refl host1) in
    let both =
      ap
        (λ (r : Result UrlSafetyError (String × String)).
          compare_hosts r (validate_pull_url net (query + 1) url))
        a
      ∙ ap (compare_hosts (ok (host1, ip1))) b in
    let agree : compare_hosts (ok (host1, ip1)) (ok (host2, ip2)) ≡ ok (host1, ip1) =
      rw equal refl in
    both ∙ agree
