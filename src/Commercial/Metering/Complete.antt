-- ===== src/Commercial/Metering/Complete.antt =====
-- Every known tenant has its activity and its query volume in every window.
use observability_kit.Prelude.{
  ℕ, ◌+◌, String, Bool, false, ◌||◌, ◌&&◌, List, [], ◌∷◌, ◌++◌, map, ◌==◌, ◌≡◌, refl, ap, ◌∙◌, elem,
  leb, arith, if◌then◌else◌,
}
use observability_kit.Prelude.Sort.{
  sort_by, sorted_set, count, count-append, count-sort_by, count-sorted_set,
}
use observability_kit.Commercial.Models.{UsageRecord}
use observability_kit.Commercial.Metering.{
  DayWindow, IngestStat, TenantRetention, QueryVolumeStat, ingest_le, retention_le, known_tenants,
  usage_record, ingest_record, retention_records, activity_record, query_record, record_le,
  build_usage_records,
}

-- The tenants that the sources name.
abbrev pub named_tenants :
    List IngestStat → List TenantRetention → List QueryVolumeStat → List String
named_tenants stats retentions queries =
    map (λ s. s.tenant_id) stats
    ++ map (λ r. r.tenant_id) retentions
    ++ map (λ q. q.tenant_id) queries

-- The record is one of the tenant's for the dimension.
abbrev pub is_for : {F : Type 0} → String → String → UsageRecord F → Bool
is_for dimension t r = r.dimension == dimension && r.tenant_id == t

count-map :
    {A B : Type 0} (p : B → Bool) (f : A → B) (xs : List A)
    → count p (map f xs) ≡ count (λ x. p (f x)) xs
unfolding count
count-map p f [] = refl
count-map p f (x ∷ xs) = ground (arith, count-map p f xs)

count-none : {A : Type 0} (xs : List A) → count (λ x. false) xs ≡ 0
unfolding count
count-none [] = refl
count-none (x ∷ xs) = count-none xs

elem-count : (t : String) (xs : List String) → elem t xs ≡ leb 1 (count (λ x. x == t) xs)
unfolding count
elem-count t [] = ground arith
elem-count t (x ∷ xs) = ground (arith, elem-count t xs)

elem-append : (t : String) (xs ys : List String) → elem t (xs ++ ys) ≡ elem t xs || elem t ys
elem-append t [] ys = refl
elem-append t (x ∷ xs) ys = ground (arith, elem-append t xs ys)

elem-known_tenants :
    (t : String) (stats : List IngestStat) (retentions : List TenantRetention)
    (queries : List QueryVolumeStat)
    → elem t (known_tenants stats retentions queries)
      ≡ elem t (named_tenants stats retentions queries)
unfolding known_tenants
elem-known_tenants t stats retentions queries =
    let once = count-sorted_set t (named_tenants stats retentions queries) in
    let here = elem-count t (sorted_set (named_tenants stats retentions queries)) in
    ground (arith, once, here)

absorb :
    (t : String) (known others ids : List String)
    → elem t known ≡ elem t (others ++ ids)
    → elem t (known ++ ids) ≡ elem t (others ++ ids)
absorb t known others ids h =
    let both = elem-append t known ids in
    let all_named = elem-append t others ids in ground (arith, h, both, all_named)

elem-queries :
    (t : String) (stats : List IngestStat) (retentions : List TenantRetention)
    (queries : List QueryVolumeStat)
    → elem t (known_tenants stats retentions queries ++ map (λ q. q.tenant_id) queries)
      ≡ elem t (named_tenants stats retentions queries)
elem-queries t stats retentions queries =
    absorb t (known_tenants stats retentions queries)
      (map (λ s. s.tenant_id) stats ++ map (λ r. r.tenant_id) retentions)
      (map (λ q. q.tenant_id) queries) (elem-known_tenants t stats retentions queries)

count-sorted :
    {A : Type 0} (le : A → A → Bool) (p : A → Bool) (us bs cs ds : List A)
    → count p (sort_by le (us ++ bs ++ cs ++ ds))
      ≡ count p us + count p bs + count p cs + count p ds
count-sorted le p us bs cs ds = omega (
  arith,
  count-sort_by le p (us ++ bs ++ cs ++ ds),
  count-append p (us ++ bs ++ cs) ds,
  count-append p (us ++ bs) cs,
  count-append p us bs,
)

module _ {F : Type 0} (of_nat gigabytes : ℕ → F) (w : DayWindow)
    (collected_at collector_version : String) where
  ingest-count :
      (d t : String) (ss : List IngestStat)
      → ("ingest_gb_per_day" == d) ≡ false
      → count
          (is_for d t)
          (map (ingest_record of_nat gigabytes w collected_at collector_version) ss)
        ≡ 0
  unfolding count ingest_record usage_record
  ingest-count d t [] h = refl
  ingest-count d t (s ∷ ss) h = rw h (ingest-count d t ss h)

  retention-count :
      (d t : String) (rs : List TenantRetention)
      → ("retention_days" == d) ≡ false
      → count (is_for d t) (retention_records of_nat gigabytes w collected_at collector_version rs)
        ≡ 0
  unfolding count retention_records usage_record
  retention-count d t [] h = refl
  retention-count d t (r ∷ rs) h = rw h (retention-count d t rs h)

  activity-count :
      (t : String) (stats : List IngestStat) (queries : List QueryVolumeStat) (ts : List String)
      → count
          (is_for "active_tenants" t)
          (map (activity_record of_nat gigabytes w collected_at collector_version stats queries) ts)
        ≡ count (λ x. x == t) ts
  unfolding count activity_record usage_record
  activity-count t stats queries [] = refl
  activity-count t stats queries (x ∷ ts) = rw (activity-count t stats queries ts) refl

  activity-none :
      (t : String) (stats : List IngestStat) (queries : List QueryVolumeStat) (ts : List String)
      → count
          (is_for "query_volume" t)
          (map (activity_record of_nat gigabytes w collected_at collector_version stats queries) ts)
        ≡ 0
  unfolding count activity_record usage_record
  activity-none t stats queries [] = refl
  activity-none t stats queries (x ∷ ts) = activity-none t stats queries ts

  query-count :
      (t : String) (queries : List QueryVolumeStat) (ts : List String)
      → count
          (is_for "query_volume" t)
          (map (query_record of_nat gigabytes w collected_at collector_version queries) ts)
        ≡ count (λ x. x == t) ts
  unfolding count query_record usage_record
  query-count t queries [] = refl
  query-count t queries (x ∷ ts) = rw (query-count t queries ts) refl

  query-none :
      (t : String) (queries : List QueryVolumeStat) (ts : List String)
      → count
          (is_for "active_tenants" t)
          (map (query_record of_nat gigabytes w collected_at collector_version queries) ts)
        ≡ 0
  unfolding count query_record usage_record
  query-none t queries [] = refl
  query-none t queries (x ∷ ts) = query-none t queries ts

  -- The records of the two dimensions that each tenant has once.
  parts :
      (d t : String) (stats : List IngestStat) (retentions : List TenantRetention)
      (queries : List QueryVolumeStat)
      → ("ingest_gb_per_day" == d) ≡ false
      → ("retention_days" == d) ≡ false
      → count (is_for d t) (
          build_usage_records of_nat gigabytes w collected_at collector_version stats retentions
            queries)
        ≡ count (is_for d t) (
            map
              (activity_record of_nat gigabytes w collected_at collector_version stats queries)
              (known_tenants stats retentions queries))
          + count (is_for d t) (
              map (query_record of_nat gigabytes w collected_at collector_version queries) (
                sorted_set
                  (known_tenants stats retentions queries ++ map (λ q. q.tenant_id) queries)))
  unfolding build_usage_records
  parts d t stats retentions queries no_ingest no_retention = omega (
    arith,
    count-sorted record_le (is_for d t)
        (map (ingest_record of_nat gigabytes w collected_at collector_version)
          (sort_by ingest_le stats))
        (retention_records of_nat gigabytes w collected_at collector_version
          (sort_by retention_le retentions))
        (map (activity_record of_nat gigabytes w collected_at collector_version stats queries)
          (known_tenants stats retentions queries))
        (map (query_record of_nat gigabytes w collected_at collector_version queries)
          (sorted_set (known_tenants stats retentions queries ++ map (λ q. q.tenant_id) queries))),
    ingest-count d t (sort_by ingest_le stats) no_ingest,
    retention-count d t (sort_by retention_le retentions) no_retention,
  )

  -- The usage records of a day have exactly one activity record and exactly one query volume record of
  -- each tenant that the ingest statistics, the retentions or the query statistics name, idle
  -- tenants included, and none of any other tenant.
  pub build_usage_records-count :
      (t : String) (stats : List IngestStat) (retentions : List TenantRetention)
      (queries : List QueryVolumeStat)
      → (count (is_for "active_tenants" t) (
            build_usage_records of_nat gigabytes w collected_at collector_version stats retentions
              queries)
          ≡ (if elem t (named_tenants stats retentions queries) then 1 else 0))
        × (count (is_for "query_volume" t) (
              build_usage_records of_nat gigabytes w collected_at collector_version stats retentions
                queries)
            ≡ (if elem t (named_tenants stats retentions queries) then 1 else 0))
  unfolding known_tenants
  build_usage_records-count t stats retentions queries =
      let known = known_tenants stats retentions queries in
      let ids = map (λ q. q.tenant_id) queries in
      let queried =
        count-sorted_set t (known ++ ids)
        ∙ ap (λ b. if b then 1 else 0) (elem-queries t stats retentions queries) in
      (
        omega (
          arith,
          parts "active_tenants" t stats retentions queries refl refl,
          activity-count t stats queries known,
          query-none t queries (sorted_set (known ++ ids)),
          count-sorted_set t (named_tenants stats retentions queries),
        ),
        omega (
          arith,
          parts "query_volume" t stats retentions queries refl refl,
          activity-none t stats queries known,
          query-count t queries (sorted_set (known ++ ids)),
          queried,
        ),
      )
