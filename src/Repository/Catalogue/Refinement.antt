-- ===== src/Repository/Catalogue/Refinement.antt =====
-- The repository carries out what the specification of the catalogue says:
-- backend/app/catalog/repository.py.
use stockstack.Repository.Catalogue.{Catalogue}
