-- ===== src/Launch/Views.antt =====
-- The command `PrintView` of `PromptUser` (src/node_launch.cpp), and `AcceptLogToString` of
-- src/paxos_node.cpp, which prints the log of a view.
use Prim.Native.String.{◌++◌}
use multi_paxos_distributed.Prelude.{ℕ, ◌≡◌, refl, String, List, [], ◌∷◌, if◌then◌else◌, ℤ, pos}
use multi_paxos_distributed.Prelude.Map.{Map, insert}
use multi_paxos_distributed.Ballot.{lt, eq}
use multi_paxos_distributed.Message.{AcceptedEntry, NewViewRequest, no_request, unset}
use multi_paxos_distributed.Launch.Integers.{to_string}

-- `all_views[key] = nv`: the views in the order of their ballots.
unfoldable pub store_view : NewViewRequest → List NewViewRequest → List NewViewRequest
unfolding lt eq
store_view nv [] = nv ∷ []
store_view nv (v ∷ vs) =
    let rest = store_view nv vs in
    if eq v.ballot nv.ballot
    then nv ∷ vs
    else if lt nv.ballot v.ballot
    then nv ∷ v ∷ vs
    else v ∷ rest

-- The views of one answer.
unfoldable pub store_views : List NewViewRequest → List NewViewRequest → List NewViewRequest
unfolding store_view
store_views [] all_views = all_views
store_views (nv ∷ newviews) all_views = store_views newviews (store_view nv all_views)

-- The views of the answers, in the order in which the nodes are asked.
unfoldable pub collect_views :
    List (List NewViewRequest) → List NewViewRequest → List NewViewRequest
unfolding store_views
collect_views [] all_views = all_views
collect_views (newviews ∷ answers) all_views =
    collect_views answers (store_views newviews all_views)

-- `accept_log[entry.seqnum()] = entry`.
unfoldable pub log_of : List AcceptedEntry → Map AcceptedEntry → Map AcceptedEntry
unfolding insert
log_of [] accept_log = accept_log
log_of (entry ∷ entries) accept_log = log_of entries (insert entry.seqnum entry accept_log)

-- The text of an entry; `amount_text` stands for `std::to_string(double)`.
unfoldable pub entry_text : (ℤ → String) → ℕ → AcceptedEntry → String
unfolding to_string
entry_text amount_text seq entry =
    "<ACCEPT, ("
    ++ (to_string (pos entry.ballot.counter)
        ++ (", "
            ++ (to_string (pos entry.ballot.node_id)
                ++ ("), "
                    ++ (to_string (pos seq)
                        ++ (", ("
                            ++ (entry.request.from_account
                                ++ (", "
                                    ++ (entry.request.to_account
                                        ++ (", "
                                            ++ (amount_text entry.request.amount
                                                ++ ")>; ")))))))))))

unfoldable pub entry_texts : (ℤ → String) → Map AcceptedEntry → String
unfolding entry_text
entry_texts amount_text [] = ""
entry_texts amount_text ((seq, entry) ∷ accept_log) =
    entry_text amount_text seq entry ++ entry_texts amount_text accept_log

-- `AcceptLogToString`.
unfoldable pub accept_log_to_string : (ℤ → String) → Map AcceptedEntry → String
unfolding entry_texts
accept_log_to_string amount_text accept_log = "{" ++ (entry_texts amount_text accept_log ++ "}")

-- The line of a view.
unfoldable pub view_text : (ℤ → String) → NewViewRequest → String
unfolding to_string log_of accept_log_to_string
view_text amount_text nv =
    "<NEW-VIEW, ("
    ++ (to_string (pos nv.ballot.counter)
        ++ (","
            ++ (to_string (pos nv.ballot.node_id)
                ++ ("), " ++ (accept_log_to_string amount_text (log_of nv.accept_log []) ++ ">")))))

unfoldable pub view_lines : (ℤ → String) → List NewViewRequest → List String
unfolding view_text
view_lines amount_text [] = []
view_lines amount_text (nv ∷ all_views) =
    view_text amount_text nv ∷ view_lines amount_text all_views

-- `PrintView`: the lines that are printed for the answers of the nodes.
unfoldable pub print_view : (ℤ → String) → List (List NewViewRequest) → List String
unfolding collect_views view_lines
print_view amount_text answers = view_lines amount_text (collect_views answers [])

abbrev transfer : AcceptedEntry
transfer = record {
  ballot = record { counter = 2; node_id = 3 };
  seqnum = 7;
  request = record no_request { from_account = "1"; to_account = "20"; amount = pos 5 };
  node_id = 3;
  two_pc_status = unset;
  m = no_request;
  new_leader = 0;
  phase2_result = unset;
}

abbrev later : NewViewRequest
later = record { ballot = record { counter = 2; node_id = 3 }; accept_log = transfer ∷ [] }

abbrev first : NewViewRequest
first = record { ballot = record { counter = 1; node_id = 4 }; accept_log = [] }

-- Two nodes give the same view, which is printed once, after that of the smaller ballot.
two_views :
    print_view (λ _. "5.000000") ((later ∷ []) ∷ (first ∷ later ∷ []) ∷ [])
    ≡ "<NEW-VIEW, (1,4), {}>" ∷ "<NEW-VIEW, (2,3), {<ACCEPT, (2, 3), 7, (1, 20, 5.000000)>; }>" ∷ []
unfolding print_view
two_views = refl
