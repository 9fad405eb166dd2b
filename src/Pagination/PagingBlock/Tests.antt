-- ===== src/Pagination/PagingBlock/Tests.antt =====
-- web/js/pagination/paging-block.js: the control of ten pages, loaded backwards.
use sigopt_server.Base.{true, false, pos, All}
use sigopt_server.Pagination.PagingBlock.{BlockProps, backward, page_items}
use sigopt_server.Pagination.PagingBlock.Buttons.{Leads, page_items-Leads}

abbrev ten_pages : BlockProps
ten_pages = record {
  has_next_page = true;
  has_previous_page = true;
  increment = backward;
  is_empty = false;
  is_paging = true;
  num_pages = 10;
  page_number = pos 5;
}

page_items-Leads_example : All (Leads ten_pages) (page_items ten_pages)
page_items-Leads_example = page_items-Leads ten_pages
