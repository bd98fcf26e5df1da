-- ===== src/Http/Config/Served.antt =====
-- httpd_conf.c and request_processor.c: a request for a script of the configuration.
