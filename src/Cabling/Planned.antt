-- ===== src/Cabling/Planned.antt =====
-- Which source interfaces a plan connects.
use infrahub_network_field_d.Base.{
  ℕ, suc, ◌+◌, ◌*◌, String, List, [], ◌∷◌, ◌++◌, ◌≡◌, refl, sym, ap, ◌∙◌, length, take, map,
}
use infrahub_network_field_d.Base.Result.{Result, ok, bind-ok}
use infrahub_network_field_d.Cabling.{
  Plan, item, pod_row, pod_rows, build_pod_cabling_plan, server_port, server_row,
  build_server_cabling_plan,
}

abbrev pub sources_of : Plan → List String
sources_of plan = map (λ l. l.0) plan

abbrev pub flatten : List (List String) → List String
flatten [] = []
flatten (ss ∷ rows) = ss ++ flatten rows

sources_of-append : (xs ys : Plan) → sources_of (xs ++ ys) ≡ sources_of xs ++ sources_of ys
sources_of-append [] ys = refl
sources_of-append (x ∷ xs) ys = ap (λ l. x.0 ∷ l) (sources_of-append xs ys)

pub joined :
    (row rest plan : Plan) (ss others : List String)
    → row ++ rest ≡ plan
    → sources_of row ≡ ss
    → sources_of rest ≡ others
    → sources_of plan ≡ ss ++ others
joined row rest plan ss others e f g =
    sym (ap sources_of e)
    ∙ (sources_of-append row rest ∙ (ap (λ l. l ++ sources_of rest) f ∙ ap (λ l. ss ++ l) g))

pub consed :
    (s t : String) (rest plan : Plan) (ss : List String)
    → (s, t) ∷ rest ≡ plan
    → sources_of rest ≡ ss
    → sources_of plan ≡ s ∷ ss
consed s t rest plan ss e f = sym (ap sources_of e) ∙ ap (λ l. s ∷ l) f

pub ok-eq : {A : Type 0} (a b : A) → ◌≡◌ {A = Result A} (ok a) (ok b) → a ≡ b
ok-eq a b h = cc h

server_row-sources :
    (server_index i : ℕ) (ss : List String) (devices : List (List String)) (row : Plan)
    → server_row server_index i ss devices ≡ ok row
    → sources_of row ≡ ss
unfolding server_row
server_row-sources server_index i [] devices row h = sym (ap sources_of (ok-eq _ _ h))
server_row-sources server_index i (s ∷ ss) devices row h =
    let (t, a, h1) = bind-ok (server_port server_index i devices) _ row h in
    let (rest, b, h2) = bind-ok (server_row server_index (suc i) ss devices) _ row h1 in
    consed s t rest row ss (ok-eq _ _ h2)
      (server_row-sources server_index (suc i) ss devices rest b)

-- A server's plan that is built connects each interface of the server once, in order.
pub build_server_cabling_plan-sources :
    (server_index : ℕ) (sources devices : List (List String)) (plan : Plan)
    → build_server_cabling_plan server_index sources devices ≡ ok plan
    → sources_of plan ≡ flatten sources
unfolding build_server_cabling_plan
build_server_cabling_plan-sources server_index [] devices plan h = sym (ap sources_of (ok-eq _ _ h))
build_server_cabling_plan-sources server_index (ss ∷ rows) devices plan h =
    let (row, a, h1) = bind-ok (server_row server_index 0 ss devices) _ plan h in
    let (rest, b, h2) = bind-ok (build_server_cabling_plan server_index rows devices) _ plan h1 in
    joined row rest plan ss (flatten rows) (ok-eq _ _ h2)
      (server_row-sources server_index 0 ss devices row a)
      (build_server_cabling_plan-sources server_index rows devices rest b)

pod_row-sources :
    (plus minus : ℕ) (ss : List String) (devices : List (List String)) (row : Plan)
    → pod_row plus minus ss devices ≡ ok row
    → sources_of row ≡ take (length devices) ss
unfolding pod_row
pod_row-sources plus minus [] [] row h = sym (ap sources_of (ok-eq _ _ h))
pod_row-sources plus minus [] (d ∷ ds) row h = sym (ap sources_of (ok-eq _ _ h))
pod_row-sources plus minus (s ∷ ss) [] row h = sym (ap sources_of (ok-eq _ _ h))
pod_row-sources plus minus (s ∷ ss) (d ∷ ds) row h =
    let (t, a, h1) = bind-ok (item d plus minus) _ row h in
    let (rest, b, h2) = bind-ok (pod_row plus minus ss ds) _ row h1 in
    consed s t rest row (take (length ds) ss) (ok-eq _ _ h2)
      (pod_row-sources plus minus ss ds rest b)

pod_rows-sources :
    (pod_index src_index : ℕ) (sources devices : List (List String)) (plan : Plan)
    → pod_rows pod_index src_index sources devices ≡ ok plan
    → sources_of plan ≡ flatten (map (take (length devices)) sources)
unfolding pod_rows
pod_rows-sources pod_index src_index [] devices plan h = sym (ap sources_of (ok-eq _ _ h))
pod_rows-sources pod_index src_index (ss ∷ rows) devices plan h =
    let (row, a, h1) =
      bind-ok (pod_row (pod_index * length devices + src_index) (2 * length devices) ss devices) _
        plan h in
    let (rest, b, h2) = bind-ok (pod_rows pod_index (suc src_index) rows devices) _ plan h1 in
    joined row rest plan _ _ (ok-eq _ _ h2)
      (pod_row-sources (pod_index * length devices + src_index) (2 * length devices) ss devices row
        a)
      (pod_rows-sources pod_index (suc src_index) rows devices rest b)

-- A pod's plan that is built connects, of each source device in order, as many of its first
-- interfaces as there are destination devices.
pub build_pod_cabling_plan-sources :
    (pod_index : ℕ) (sources devices : List (List String)) (plan : Plan)
    → build_pod_cabling_plan pod_index sources devices ≡ ok plan
    → sources_of plan ≡ flatten (map (take (length devices)) sources)
unfolding build_pod_cabling_plan
build_pod_cabling_plan-sources pod_index sources devices plan h =
    pod_rows-sources pod_index 0 sources devices plan h
