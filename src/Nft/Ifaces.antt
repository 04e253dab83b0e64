-- ===== src/Nft/Ifaces.antt =====
-- internal/backend/nft/compile.go: the interface names of a rule, with the panic of `appendIfaceMatch`.
use better_firewall.Prelude.{List, [], ◌++◌, String, ◌==◌, String-eq, if◌then◌else◌}
use better_firewall.Prelude.Result.{Result, ok, err, ◌>>=◌}
use better_firewall.Nft.Expr.{Expr, MetaKey, key_iifname, key_oifname}
use better_firewall.Nft.Match.{iface_match, iface_panics}
use better_firewall.Nft.Compiled.{CompileError, iface_panic}

-- The match of a name that is given.
unfoldable pub given_iface : MetaKey → String → Result CompileError (List Expr)
unfolding iface_match iface_panics
given_iface key name =
    if name == ""
    then ok []
    else if iface_panics name
    then err (iface_panic name)
    else ok (iface_match key name)

-- The name of the interface that a packet comes from, then of the one that it goes to.
unfoldable pub both_ifaces : String → String → Result CompileError (List Expr)
unfolding given_iface
both_ifaces from to =
    given_iface key_iifname from >>= λ i. given_iface key_oifname to >>= λ o. ok (i ++ o)
